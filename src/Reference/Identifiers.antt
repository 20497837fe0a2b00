-- ===== src/Reference/Identifiers.antt =====
-- The identifiers that one server gives out: calls of `nextIdentifierLocked` of internal/reference/server.go, one after another.
use memory.Prelude.{
  ℕ, ◌+◌, ◌^◌, ◌≤◌, ◌<◌, ◌≡◌, refl, arith, false, List, [], ◌∷◌, contains, Distinct, length,
  Bool-cases, inl, inr,
}
use memory.Text.Bytes.{Str, Str-eq, str_eq, str_eq_iff}
use memory.Text.Decimal.{identifier, identifier-injective}
use memory.Reference.State.{Server, Outcome, increment, next_identifier}

-- The identifiers for some prefixes, with what the code does after each.
abbrev issue_rest : Outcome Str × Server → (Server → List Str) → List Str
issue_rest (Outcome.ok id, s) rest = id ∷ rest s
issue_rest (Outcome.err e, s) rest = rest s
issue_rest (Outcome.panic, s) rest = []

-- A server gives out identifiers with these prefixes, in this order.
abbrev pub issued : List Str → Server → List Str
issued [] s = []
issued (prefix ∷ prefixes) s = issue_rest (next_identifier prefix s) (issued prefixes)

increment_lem : (n : ℕ) → n + 1 < 2 ^ 64 → increment n ≡ n + 1
increment_lem n h = omega (arith, h)

issued-later :
    (p : Str) (m : ℕ) (prefixes : List Str) (s : Server)
    → m ≤ s.next_id
    → s.next_id + length prefixes < 2 ^ 64
    → contains (issued prefixes s) (identifier p m) ≡ false
unfolding contains next_identifier
issued-later p m [] s le small = refl
issued-later p m (q ∷ prefixes) s le small =
    rw (increment_lem s.next_id (omega (arith, small)))
      (elim (Bool-cases (str_eq (identifier q (s.next_id + 1)) (identifier p m))) [
        | inl e ↦
            let same : s.next_id + 1 ≡ m =
              identifier-injective q p (s.next_id + 1) m
                ((str_eq_iff (identifier q (s.next_id + 1)) (identifier p m)).0 e) in
            absurd (omega (arith, le, same))
        | inr e ↦ rw e (
            issued-later p m prefixes (record s { next_id = s.next_id + 1 }) (omega (arith, le))
              (omega (arith, small)))
      ])

-- The identifiers that a server gives out one after another, under any prefixes, are distinct, as
-- long as their numbers stay below 2^64.
pub issued-Distinct :
    (prefixes : List Str) (s : Server)
    → s.next_id + length prefixes < 2 ^ 64
    → Distinct (issued prefixes s)
unfolding next_identifier
issued-Distinct [] s small = tt
issued-Distinct (p ∷ prefixes) s small = rw (increment_lem s.next_id (omega (arith, small))) (
  issued-later p (s.next_id + 1) prefixes (record s { next_id = s.next_id + 1 }) (omega arith)
      (omega (arith, small)),
  issued-Distinct prefixes (record s { next_id = s.next_id + 1 }) (omega (arith, small)),
)
