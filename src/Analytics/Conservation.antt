-- ===== src/Analytics/Conservation.antt =====
-- Sums over the counters and the tables of src/analytics.rs.
use ruskery.Common.{
  ◌≡◌, refl, sym, ◌∙◌, ap, ◌⊎◌, Bool, true, false, [], ◌∷◌, str_eq_iff, arith, if◌then◌else◌,
  Bool-cases, inl, inr,
}
use ruskery.Common.Int.{ℤ, pos, ◌+ℤ◌, +ℤ_comm, +ℤ_assoc}
use ruskery.Analytics.{
  Counter, Key, same_key, Counters, plus, add, add_all, UsageCollector, UsageTables, flush_batch,
  flush,
}

-- What a counter counts.
pub data Measure : Type 0 where
  events bytes_moved : Measure

abbrev pub amount : Measure → Counter → ℤ
amount events c = c.count
amount bytes_moved c = c.bytes

amount-plus : (f : Measure) (c d : Counter) → amount f (plus c d) ≡ amount f c +ℤ amount f d
amount-plus events c d = refl
amount-plus bytes_moved c d = refl

-- The sum of a measure over the rows of one key.
unfoldable pub total : Measure → Key → Counters → ℤ
total f k [] = pos 0
total f k (e ∷ es) = if same_key e.0 k then amount f e.1 +ℤ total f k es else total f k es

same_key_trans : (i j k : Key) → same_key i j ≡ true → same_key j k ≡ same_key i k
unfolding same_key
same_key_trans i j k h = ground (
  arith,
  str_eq_iff i.day j.day,
  str_eq_iff i.org_id j.org_id,
  str_eq_iff i.name j.name,
  str_eq_iff i.kind j.kind,
)

merged :
    (t : Bool) (p a b rest : ℤ)
    → p ≡ a +ℤ b
    → (if t then p +ℤ rest else rest)
      ≡ (if t then b +ℤ (if t then a +ℤ rest else rest) else (if t then a +ℤ rest else rest))
merged true p a b rest e = rw e (ap (λ x. x +ℤ rest) (+ℤ_comm a b) ∙ +ℤ_assoc b a rest)
merged false p a b rest e = refl

swapped :
    (t u : Bool) (a b rest : ℤ)
    → (if t then a +ℤ (if u then b +ℤ rest else rest) else (if u then b +ℤ rest else rest))
      ≡ (if u then b +ℤ (if t then a +ℤ rest else rest) else (if t then a +ℤ rest else rest))
swapped true true a b rest =
    sym (+ℤ_assoc a b rest) ∙ ap (λ x. x +ℤ rest) (+ℤ_comm a b) ∙ +ℤ_assoc b a rest
swapped true false a b rest = refl
swapped false true a b rest = refl
swapped false false a b rest = refl

moved : (t : Bool) (a x y : ℤ) → x +ℤ (if t then a +ℤ y else y) ≡ (if t then a +ℤ x else x) +ℤ y
moved true a x y = sym (+ℤ_assoc x a y) ∙ ap (λ z. z +ℤ y) (+ℤ_comm x a)
moved false a x y = refl

zero_add : (x : ℤ) → pos 0 +ℤ x ≡ x
unfolding ◌+ℤ◌
zero_add x = ground arith

total-add :
    (f : Measure) (k key : Key) (c : Counter) (m : Counters)
    → total f k (add key c m) ≡ (if same_key key k then amount f c +ℤ total f k m else total f k m)
unfolding total add
total-add f k key c [] = refl
total-add f k key c (e ∷ es) = elim (Bool-cases (same_key e.0 key)) [
  | inl same ↦
      rw (same, sym (same_key_trans e.0 key k same))
        (merged (same_key key k) (amount f (plus e.1 c)) (amount f e.1) (amount f c) (total f k es)
          (amount-plus f e.1 c))
  | inr other ↦
      rw (other, total-add f k key c es)
        (swapped (same_key e.0 k) (same_key key k) (amount f e.1) (amount f c) (total f k es))
]

total-add_all :
    (f : Measure) (k : Key) (es m : Counters)
    → total f k (add_all es m) ≡ total f k es +ℤ total f k m
unfolding total add_all
total-add_all f k [] m = sym (zero_add (total f k m))
total-add_all f k (e ∷ es) m =
    total-add_all f k es (add e.0 e.1 m)
    ∙ ap (λ x. total f k es +ℤ x) (total-add f k e.0 e.1 m)
    ∙ moved (same_key e.0 k) (amount f e.1) (total f k es) (total f k m)

-- The sums of rows that went into a table, and of rows that went back into the empty counters.
total_committed :
    (f : Measure) (k : Key) (es m : Counters)
    → total f k [] +ℤ total f k (add_all es m) ≡ total f k es +ℤ total f k m
unfolding total
total_committed f k es m = zero_add (total f k (add_all es m)) ∙ total-add_all f k es m

total_requeued :
    (f : Measure) (k : Key) (es m : Counters)
    → total f k (add_all es []) +ℤ total f k m ≡ total f k es +ℤ total f k m
unfolding total
total_requeued f k es m =
    ap (λ x. x +ℤ total f k m)
      (total-add_all f k es [] ∙ +ℤ_comm (total f k es) (pos 0) ∙ zero_add (total f k es))

flush_batch-cases :
    (commits : Bool) (rs us : Counters) (t : UsageTables)
    → (flush_batch commits rs us t ≡ (
      true,
      record {
        usage_daily = add_all rs t.usage_daily;
        usage_user_daily = add_all us t.usage_user_daily;
      },
    ))
      ⊎ (flush_batch commits rs us t ≡ (false, t))
unfolding flush_batch add_all
flush_batch-cases commits [] [] t = inl refl
flush_batch-cases true [] (e ∷ es) t = inl refl
flush_batch-cases false [] (e ∷ es) t = inr refl
flush_batch-cases true (e ∷ es) us t = inl refl
flush_batch-cases false (e ∷ es) us t = inr refl

-- A flush keeps every sum: what the counters and the tables hold together of a measure, for every
-- day, organization, name and kind, is the same after it, whether the transaction commits or fails.
pub flush-total :
    (commits : Bool) (u : UsageCollector) (t : UsageTables) (f : Measure) (k : Key)
    → (total f k (flush commits u t).1.repo +ℤ total f k (flush commits u t).2.usage_daily
        ≡ total f k u.repo +ℤ total f k t.usage_daily)
      × (total f k (flush commits u t).1.user +ℤ total f k (flush commits u t).2.usage_user_daily
          ≡ total f k u.user +ℤ total f k t.usage_user_daily)
unfolding flush
flush-total commits u t f k = elim (flush_batch-cases commits u.repo u.user t) [
  | inl e ↦
      rw (flush, ap (λ r. r.0) e, ap (λ r. r.1) e)
        (total_committed f k u.repo t.usage_daily, total_committed f k u.user t.usage_user_daily)
  | inr e ↦
      rw (flush, ap (λ r. r.0) e, ap (λ r. r.1) e)
        (total_requeued f k u.repo t.usage_daily, total_requeued f k u.user t.usage_user_daily)
]
