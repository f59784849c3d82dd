-- ===== src/Events/Upsert/Keys.antt =====
-- Keys of events, and the deduplication of the input: the first occurrence of each key is kept.
use omnisync.Base.{
  ◌≡◌, refl, ◌↔◌, inl, inr, true, Option, none, some, List, [], ◌∷◌, arith, eq_iff, if◌then◌else◌,
  Bool-cases, any, first, All,
}
use omnisync.Events.Model.{NormalizedEventCreate}
use omnisync.Events.Upsert.{Key, same_key, key_of, dedup_from, dedup}

pub same_key_iff : (k j : Key) → (same_key k j ≡ true) ↔ (k ≡ j)
unfolding same_key
same_key_iff (s, x) (s', x') = ground (arith, eq_iff s s', eq_iff x x')

pub same_key_refl : (k : Key) → same_key k k ≡ true
same_key_refl k = (same_key_iff k k).1 refl

pub same_key_sym : (k j : Key) → same_key k j ≡ same_key j k
same_key_sym k j = ground (arith, same_key_iff k j, same_key_iff j k)

pub same_key_trans : (i j k : Key) → same_key i j ≡ true → same_key j k ≡ same_key i k
same_key_trans i j k h = ground (arith, same_key_iff i j)

-- The first input with a key.
abbrev pub input_of : Key → List NormalizedEventCreate → Option NormalizedEventCreate
input_of k = first (λ e. same_key (key_of e) k)

-- No key occurs twice.
abbrev pub IsDeduped : List NormalizedEventCreate → Type 0
IsDeduped [] = Unit
IsDeduped (e ∷ es) = (input_of (key_of e) es ≡ none) × IsDeduped es

input_of-dedup_from :
    (k : Key) (seen : List Key) (es : List NormalizedEventCreate)
    → input_of k (dedup_from seen es) ≡ (if any (same_key k) seen then none else input_of k es)
unfolding dedup_from
input_of-dedup_from k seen [] = ground arith
input_of-dedup_from k seen (e ∷ es) = ground (
  arith,
  same_key_iff (key_of e) k,
  same_key_sym k (key_of e),
  input_of-dedup_from k seen es,
  input_of-dedup_from k (key_of e ∷ seen) es,
)

-- The kept input of a key is the first one of the batch.
pub input_of-dedup :
    (k : Key) (es : List NormalizedEventCreate) → input_of k (dedup es) ≡ input_of k es
unfolding dedup
input_of-dedup k es = input_of-dedup_from k [] es

dedup_from-IsDeduped :
    (seen : List Key) (es : List NormalizedEventCreate) → IsDeduped (dedup_from seen es)
unfolding dedup_from
dedup_from-IsDeduped seen [] = tt
dedup_from-IsDeduped seen (e ∷ es) = elim (Bool-cases (any (same_key (key_of e)) seen)) [
  | inl old ↦ rw (old, IsDeduped, dedup_from) (dedup_from-IsDeduped seen es)
  | inr new ↦
      rw (new, IsDeduped, dedup_from)
        (
          rw (input_of-dedup_from (key_of e) (key_of e ∷ seen) es, same_key_refl) refl,
          dedup_from-IsDeduped (key_of e ∷ seen) es,
        )
]

pub dedup-IsDeduped : (es : List NormalizedEventCreate) → IsDeduped (dedup es)
unfolding dedup
dedup-IsDeduped es = dedup_from-IsDeduped [] es

pub key-input_of :
    (k : Key) (es : List NormalizedEventCreate) {e : NormalizedEventCreate}
    → input_of k es ≡ some e
    → key_of e ≡ k
key-input_of k [] h = absurd (cc)
key-input_of k (e' ∷ es) {e} h = elim (Bool-cases (same_key (key_of e') k)) [
  | inl here ↦ ground (arith, (same_key_iff (key_of e') k).0 here)
  | inr there ↦ key-input_of k es {e = e} (ground arith)
]

-- In a batch without repeated keys each input is the one of its key.
inputs_weaken :
    (e : NormalizedEventCreate) (es ds : List NormalizedEventCreate)
    → input_of (key_of e) es ≡ none
    → All (λ d. input_of (key_of d) es ≡ some d) ds
    → All (λ d. input_of (key_of d) (e ∷ es) ≡ some d) ds
inputs_weaken e es [] n h = tt
inputs_weaken e es (d ∷ ds) n h =
    (ground (arith, same_key_iff (key_of e) (key_of d), h.0), inputs_weaken e es ds n h.1)

pub IsDeduped-inputs :
    (es : List NormalizedEventCreate) → IsDeduped es → All (λ e. input_of (key_of e) es ≡ some e) es
IsDeduped-inputs [] d = tt
IsDeduped-inputs (e ∷ es) d =
    (rw same_key_refl, inputs_weaken e es es d.0 (IsDeduped-inputs es d.1))
