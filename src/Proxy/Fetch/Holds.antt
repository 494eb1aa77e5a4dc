-- ===== src/Proxy/Fetch/Holds.antt =====
-- What is asked of the network in every run: which requests are sent after which lookups, and how
-- many.
use ruskery.Common.{
  ℕ, zero, suc, ◌+◌, ◌≤◌, ◌≡◌, refl, Option, none, some, List, ◌∷◌, Str, In, Nothing, inl, inr, any,
  arith, if◌then◌else◌, Bool-cases,
}
use ruskery.Error.{Result, ok, err}
use ruskery.Proxy.{IpAddr, Request, Reply}
use ruskery.Proxy.Guard.{is_refused}
use ruskery.Proxy.Fetch.{Fetch, done, fail, lookup, request, ◌>>=◌, lift}

-- The hosts and ports that resolved to no address that is refused.
abbrev pub Cleared : Type 0
Cleared = List (Str × ℕ)

abbrev pub clear : Str → ℕ → Option (List IpAddr) → Cleared → Cleared
clear host port none c = c
clear host port (some ips) c = if any is_refused ips then c else (host, port) ∷ c

-- `Grown c d`: `d` has all that `c` has.
abbrev pub Grown : Cleared → Cleared → Type 0
Grown c d = (x : Str × ℕ) → In x c → In x d

pub Grown-clear :
    (host : Str) (port : ℕ) (ips : Option (List IpAddr)) (c : Cleared)
    → Grown c (clear host port ips c)
Grown-clear host port none c x i = i
Grown-clear host port (some ips) c x i = elim (Bool-cases (any is_refused ips)) [
  | inl e ↦ rw e i
  | inr e ↦ rw e (inr i)
]

module _ {ℓ} {A : Type ℓ} (P : Cleared → Request → Type 0) where
  -- Every request meets `P` with what is cleared before it, and every value that is returned `Q`.
  abbrev pub Holds : (Q : Cleared → A → Type 0) → Cleared → Fetch A → Type 0
  Holds Q c (done a) = Q c a
  Holds Q c (fail e) = Unit
  Holds Q c (lookup host port answer) =
      (ips : Option (List IpAddr)) → Holds Q (clear host port ips c) (answer ips)
  Holds Q c (request r answer) = P c r × ((reply : Option Reply) → Holds Q c (answer reply))

  pub Holds-map :
      {Q R : Cleared → A → Type 0} (c0 c : Cleared) (t : Fetch A)
      → Grown c0 c
      → ((d : Cleared) (a : A) → Grown c0 d → Q d a → R d a)
      → Holds Q c t
      → Holds R c t
  Holds-map c0 c (done a) g f h = f c a g h
  Holds-map c0 c (fail e) g f h = tt
  Holds-map c0 c (lookup host port answer) g f h = λ ips.
      Holds-map c0 (clear host port ips c) (answer ips)
        (λ x i. Grown-clear host port ips c x (g x i)) f (h ips)
  Holds-map c0 c (request r answer) g f h =
      (h.0, λ reply. Holds-map c0 c (answer reply) g f (h.1 reply))

module _ {ℓ κ} {A : Type ℓ} {B : Type κ} (P : Cleared → Request → Type 0) where
  pub Holds->>= :
      (Q : Cleared → A → Type 0) (R : Cleared → B → Type 0) (c0 c : Cleared) (t : Fetch A)
      (k : A → Fetch B)
      → Grown c0 c
      → Holds P Q c t
      → ((d : Cleared) (a : A) → Grown c0 d → Q d a → Holds P R d (k a))
      → Holds P R c (t >>= k)
  Holds->>= Q R c0 c (done a) k g h f = f c a g h
  Holds->>= Q R c0 c (fail e) k g h f = tt
  Holds->>= Q R c0 c (lookup host port answer) k g h f = λ ips.
      Holds->>= Q R c0 (clear host port ips c) (answer ips) k
        (λ x i. Grown-clear host port ips c x (g x i)) (h ips) f
  Holds->>= Q R c0 c (request r answer) k g h f =
      (h.0, λ reply. Holds->>= Q R c0 c (answer reply) k g (h.1 reply) f)

-- A step that asks nothing.
pub Holds-lift {ℓ} :
    {A : Type ℓ} (P : Cleared → Request → Type 0) (Q : Cleared → A → Type 0) (c : Cleared)
    (r : Result A)
    → ((a : A) → r ≡ ok a → Q c a)
    → Holds P Q c (lift r)
Holds-lift P Q c (ok a) f = f a refl
Holds-lift P Q c (err e) f = tt

-- At most `n` requests are sent.
abbrev pub AtMost {ℓ} : {A : Type ℓ} → ℕ → Fetch A → Type 0
AtMost n (done a) = Unit
AtMost n (fail e) = Unit
AtMost n (lookup host port answer) = (ips : Option (List IpAddr)) → AtMost n (answer ips)
AtMost zero (request r answer) = Nothing {0}
AtMost (suc n) (request r answer) = (reply : Option Reply) → AtMost n (answer reply)

pub AtMost-lift {ℓ} : {A : Type ℓ} (n : ℕ) (r : Result A) → AtMost n (lift r)
AtMost-lift n (ok a) = tt
AtMost-lift n (err e) = tt

pub AtMost-mono {ℓ} : {A : Type ℓ} (m n : ℕ) (t : Fetch A) → m ≤ n → AtMost m t → AtMost n t
AtMost-mono m n (done a) le h = tt
AtMost-mono m n (fail e) le h = tt
AtMost-mono m n (lookup host port answer) le h = λ ips. AtMost-mono m n (answer ips) le (h ips)
AtMost-mono zero n (request r answer) le h = elim h [ ]
AtMost-mono (suc m) zero (request r answer) le h = absurd (omega arith)
AtMost-mono (suc m) (suc n) (request r answer) le h =
    λ reply. AtMost-mono m n (answer reply) (omega arith) (h reply)

pub AtMost->>= {ℓ κ} :
    {A : Type ℓ} {B : Type κ} (m n : ℕ) (t : Fetch A) (k : A → Fetch B)
    → AtMost m t
    → ((a : A) → AtMost n (k a))
    → AtMost (m + n) (t >>= k)
AtMost->>= m n (done a) k h f = AtMost-mono n (m + n) (k a) (omega arith) (f a)
AtMost->>= m n (fail e) k h f = tt
AtMost->>= m n (lookup host port answer) k h f = λ ips. AtMost->>= m n (answer ips) k (h ips) f
AtMost->>= zero n (request r answer) k h f = elim h [ ]
AtMost->>= (suc m) n (request r answer) k h f =
    AtMost-mono (suc (m + n)) (suc m + n) (request r (λ reply. answer reply >>= k)) (omega arith)
      (λ reply. AtMost->>= m n (answer reply) k (h reply) f)

-- A first part that sends nothing.
pub AtMost->>=_free {ℓ κ} :
    {A : Type ℓ} {B : Type κ} (n : ℕ) (t : Fetch A) (k : A → Fetch B)
    → AtMost 0 t
    → ((a : A) → AtMost n (k a))
    → AtMost n (t >>= k)
AtMost->>=_free n t k h f = AtMost-mono (0 + n) n (t >>= k) (omega arith) (AtMost->>= 0 n t k h f)

module _ {ℓ} {A : Type ℓ} (P S : Cleared → Request → Type 0) (Q : Cleared → A → Type 0) where
  -- Another property of the requests, where what was cleared at first stays so.
  pub Holds-requests :
      (c0 c : Cleared) (t : Fetch A)
      → Grown c0 c
      → ((d : Cleared) (r : Request) → Grown c0 d → P d r → S d r)
      → Holds P Q c t
      → Holds S Q c t
  Holds-requests c0 c (done a) g f h = h
  Holds-requests c0 c (fail e) g f h = tt
  Holds-requests c0 c (lookup host port answer) g f h = λ ips.
      Holds-requests c0 (clear host port ips c) (answer ips)
        (λ x i. Grown-clear host port ips c x (g x i)) f (h ips)
  Holds-requests c0 c (request r answer) g f h =
      (f c r g h.0, λ reply. Holds-requests c0 c (answer reply) g f (h.1 reply))
