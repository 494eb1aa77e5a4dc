-- ===== src/Proxy/Send/Capped.antt =====
-- `read_capped`: which bodies are read.
use ruskery.Common.{
  ℕ, ◌≤◌, ◌<◌, ◌≡◌, refl, sym, ◌∙◌, ap, ◌++◌, true, false, Option, none, some, List, [], ◌∷◌, Str,
  arith, inl, inr, ◌⊎◌, Bool-cases, Option-cases, option_map, unwrap_or, length, ltb, length-append,
  append_assoc, append-nil, subst,
}
use ruskery.Error.{Error, Result, ok, err}
use ruskery.Proxy.{Reply}
use ruskery.Proxy.Send.{read_chunks, read_capped}

-- All chunks of a body, if every read works.
abbrev pub whole_body : List (Option Str) → Option Str
whole_body [] = some []
whole_body (none ∷ body) = none
whole_body (some chunk ∷ body) = option_map (λ rest. chunk ++ rest) (whole_body body)

-- A body that is not read: a read fails, or it is too long.
abbrev Unread : ℕ → Option Str → Type 0
Unread max whole = (whole ≡ none) ⊎ ((b : Str) × (whole ≡ some b) × (max < length b))

abbrev ReadIf : ℕ → Option Str → Result Str → Type 0
ReadIf max whole (ok bytes) = (whole ≡ some bytes) × (length bytes ≤ max)
ReadIf max whole (err e) = Unread max whole

read_chunks-ReadIf :
    (max : ℕ) (what : Str) (body : List (Option Str)) (buf : Str)
    → length buf ≤ max
    → ReadIf max
        (option_map (λ rest. buf ++ rest) (whole_body body))
        (read_chunks max what body buf)
unfolding read_chunks
read_chunks-ReadIf max what [] buf h = (ap some (append-nil buf), h)
read_chunks-ReadIf max what (none ∷ body) buf h = inl refl
read_chunks-ReadIf max what (some chunk ∷ body) buf h =
    elim (Bool-cases (ltb max (length (buf ++ chunk)))) [
      | inl e ↦ rw e (elim (Option-cases (whole_body body)) [
        | inl w ↦ inl (rw w refl)
        | inr (rest, w) ↦ rw w (
            inr (
              buf ++ (chunk ++ rest),
              refl,
              omega (
                arith,
                length-append buf (chunk ++ rest),
                length-append chunk rest,
                length-append buf chunk,
                over e,
              ),
            ))
      ])
      | inr e ↦ rw e (
          regroup (whole_body body) _
            (read_chunks-ReadIf max what body (buf ++ chunk) (ground arith)))
    ]
  where
    over : ltb max (length (buf ++ chunk)) ≡ true → max < length (buf ++ chunk)
    over e = ground arith

    regroup :
        (whole : Option Str) (r : Result Str)
        → ReadIf max (option_map (λ rest. (buf ++ chunk) ++ rest) whole) r
        → ReadIf max (option_map (λ rest. buf ++ rest) (option_map (λ rest. chunk ++ rest) whole)) r
    regroup none r k = k
    regroup (some rest) r k = rw (sym (append_assoc buf chunk rest)) k

-- A response is read exactly if it does not announce more than the limit, every read works and the
-- chunks together are within the limit, and then all of it is returned.
pub data Read (max : ℕ) (reply : Reply) (r : Result Str) : Type 0 where
  all_read :
      (bytes : Str)
      → r ≡ ok bytes
      → whole_body reply.body ≡ some bytes
      → length bytes ≤ max
      → unwrap_or (option_map (ltb max) reply.content_length) false ≡ false
      → Read max reply r
  refused :
      (e : Error)
      → r ≡ err e
      → ((n : ℕ) × (reply.content_length ≡ some n) × (max < n)) ⊎ Unread max (whole_body reply.body)
      → Read max reply r

-- `read_capped` returns the whole body if no more than the limit is announced, every read works and
-- the body is within the limit; else it is refused because one of these fails.
pub read_capped-Read :
    (max : ℕ) (what : Str) (reply : Reply) → Read max reply (read_capped reply max what)
unfolding read_capped
read_capped-Read max what reply =
    elim (Bool-cases (unwrap_or (option_map (ltb max) reply.content_length) false)) [
      | inl e ↦ rw e (refused _ refl (inl (announced reply.content_length e)))
      | inr e ↦ rw e (finished _ (read_chunks-ReadIf max what reply.body [] (omega arith)) e)
    ]
  where
    announced :
        (len : Option ℕ)
        → unwrap_or (option_map (ltb max) len) false ≡ true
        → (n : ℕ) × (len ≡ some n) × (max < n)
    announced none e = absurd (ground arith)
    announced (some n) e = (n, refl, ground arith)

    whole_lem : (w : Option Str) → option_map (λ rest. [] ++ rest) w ≡ w
    whole_lem none = refl
    whole_lem (some w) = refl

    finished :
        (r : Result Str)
        → ReadIf max (option_map (λ rest. [] ++ rest) (whole_body reply.body)) r
        → unwrap_or (option_map (ltb max) reply.content_length) false ≡ false
        → Read max reply r
    finished (ok bytes) k e =
        all_read bytes refl (sym (whole_lem (whole_body reply.body)) ∙ k.0) k.1 e
    finished (err f) k e =
        refused f refl (inr (subst (Unread max) (whole_lem (whole_body reply.body)) k))
