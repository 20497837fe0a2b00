-- ===== src/Facts/Accepted.antt =====
-- What evidence that passes `Validate` satisfies.
use memory.Prelude.{
  ◌≤◌, ◌<◌, ◌≡◌, ◌≢◌, refl, arith, Bool, true, false, not, ◌&&◌, ◌||◌, Option, none, some, List, [],
  ◌∷◌, map, All, Distinct, contains, length, ltb, if◌then◌else◌,
}
use memory.Prelude.Unique.{Fresh, Fresh-nil, Fresh-cons, Fresh-tail}
use memory.Prelude.Result.{ok, refuse, >>=-from-ok, refuse-eq-ok}
use memory.Text.Bytes.{Str, Str-eq, str_eq, str_eq_iff}
use memory.Text.Utf8.{valid_string}
use memory.Text.Strings.{trim_space}
use memory.Requests.{Time}
use memory.Facts.{Role, Transition, Source, Condition, Mutation, SubmitEvidenceRequest}
use memory.Facts.Validate.{
  bad_reference, bad_text, zero_time, reversed_interval, too_many_conditions, bad_condition,
  wrong_subject, repeated_target, unconfirmed_edit, too_many_mutations, bounded, is_zero_time,
  is_nil_time, reversed, check_target, check_interval, check_conditions, validate_mutation,
  is_establish, is_confirmation, check_mutations, safely_validate_evidence, max_mutations,
  validate_submit,
}

-- The target and the times that a transition needs.
abbrev pub Suits : Mutation → Transition → Type 0
Suits m Transition.establish = (m.target_record_id ≡ []) × (m.expected_revision ≡ 0)
Suits m Transition.change =
    (m.target_record_id ≢ []) × (m.expected_revision ≢ 0) × ((t : Time) × (m.valid_from ≡ some t))
Suits m Transition.exception =
    (m.target_record_id ≢ [])
    × (m.expected_revision ≢ 0)
    × ((from : Time) × (until : Time) × (m.valid_from ≡ some from)
        × (m.valid_until ≡ some until)
        × (from < until))
    × (m.key ≢ [])
Suits m (Transition.other s) = ⊥
Suits m _ = (m.target_record_id ≢ []) × (m.expected_revision ≢ 0)

pub record Sound (source : Source) (m : Mutation) : Type 0 where
  pub subject : m.subject ≡ source.subject
  pub confirmed : m.transition ≢ Transition.establish → source.role ≡ Role.structured_confirmation
  pub suits : Suits m m.transition
  pub ordered :
      (from until : Time) → m.valid_from ≡ some from → m.valid_until ≡ some until → from < until
  pub text_le : length m.text ≤ 32768
  pub conditions_le : length m.conditions ≤ 8
  pub conditions_distinct : Distinct (map (λ c. c.key) m.conditions)

abbrev pub targets : List Mutation → List Str
targets [] = []
targets (m ∷ ms) =
    if str_eq m.target_record_id [] then targets ms else m.target_record_id ∷ targets ms

check_conditions-Fresh :
    (cs : List Condition) (seen : List Str)
    → check_conditions cs seen ≡ ok tt
    → Fresh (map (λ c. c.key) cs) seen
unfolding check_conditions
check_conditions-Fresh [] seen h = Fresh-nil seen
check_conditions-Fresh (c ∷ cs) seen h =
    >>=-from-ok
      (refuse
        (not (bounded c.key 128 true) || not (bounded c.value 256 true) || contains seen c.key)
        bad_condition)
      _ h
      λ _ new h1.
        Fresh-cons c.key (map (λ c'. c'.key) cs) seen (ground (arith, new))
          (check_conditions-Fresh cs (c.key ∷ seen) h1)

reversed_lem :
    (a b : Option Time)
    → reversed a b ≡ false
    → (from until : Time) → a ≡ some from
    → b ≡ some until
    → from < until
reversed_lem none b h from until e f = absurd (cc (e))
reversed_lem (some x) none h from until e f = absurd (cc (f))
reversed_lem (some x) (some y) h from until e f = ground arith

time_lem : (o : Option Time) → is_nil_time o ≡ false → (t : Time) × (o ≡ some t)
time_lem none h = absurd (cc (h))
time_lem (some t) h = (t, refl)

mutation-Suits :
    (m : Mutation) (t : Transition)
    → check_target m t ≡ ok tt
    → check_interval m t ≡ ok tt
    → ((from until : Time) → m.valid_from ≡ some from → m.valid_until ≡ some until → from < until)
    → Suits m t
unfolding check_target check_interval
mutation-Suits m Transition.establish h i o = ground (arith, str_eq_iff m.target_record_id [])
mutation-Suits m Transition.change h i o = (
  ground (arith, str_eq_iff m.target_record_id []),
  ground arith,
  time_lem m.valid_from (ground arith),
)
mutation-Suits m Transition.exception h i o =
    let from = time_lem m.valid_from (ground arith) in
    let until = time_lem m.valid_until (ground arith) in
    (
      ground (arith, str_eq_iff m.target_record_id []),
      ground arith,
      (from.0, until.0, from.1, until.1, o from.0 until.0 from.1 until.1),
      ground (arith, str_eq_iff m.key []),
    )
mutation-Suits m Transition.correct h i o =
    (ground (arith, str_eq_iff m.target_record_id []), ground arith)
mutation-Suits m Transition.confirm h i o =
    (ground (arith, str_eq_iff m.target_record_id []), ground arith)
mutation-Suits m Transition.deny h i o =
    (ground (arith, str_eq_iff m.target_record_id []), ground arith)
mutation-Suits m (Transition.other s) h i o = absurd (cc (h))

confirmed_lem :
    (t : Transition) (r : Role)
    → not (is_establish t) && not (is_confirmation r) ≡ false
    → t ≢ Transition.establish
    → r ≡ Role.structured_confirmation
confirmed_lem Transition.establish r h n = absurd (n refl)
confirmed_lem Transition.change r h n = ground arith
confirmed_lem Transition.exception r h n = ground arith
confirmed_lem Transition.correct r h n = ground arith
confirmed_lem Transition.confirm r h n = ground arith
confirmed_lem Transition.deny r h n = ground arith
confirmed_lem (Transition.other s) r h n = ground arith

validate_mutation-Sound :
    (source : Source) (m : Mutation)
    → validate_mutation m ≡ ok tt
    → m.subject ≡ source.subject
    → not (is_establish m.transition) && not (is_confirmation source.role) ≡ false
    → Sound source m
unfolding validate_mutation
validate_mutation-Sound source m h subject role =
    >>=-from-ok
      (refuse
        (not (bounded m.subject 256 true)
          || not (bounded m.key 128 false)
          || not (bounded m.target_record_id 256 false))
        bad_reference)
      _ h
      λ _ _ h1.
        >>=-from-ok
          (refuse
            (not (valid_string m.text)
              || str_eq (trim_space m.text) []
              || ltb 32768 (length m.text))
            bad_text)
          _ h1
          λ _ body h2. >>=-from-ok (check_target m m.transition) _ h2 λ _ target h3.
            >>=-from-ok (refuse (is_zero_time m.valid_from || is_zero_time m.valid_until) zero_time)
              _ h3
              λ _ _ h4.
                >>=-from-ok (refuse (reversed m.valid_from m.valid_until) reversed_interval) _ h4
                  λ _ order h5. >>=-from-ok (check_interval m m.transition) _ h5 λ _ interval h6.
                    >>=-from-ok (refuse (ltb 8 (length m.conditions)) too_many_conditions) _ h6
                      λ _ count h7.
                        let ordered = reversed_lem m.valid_from m.valid_until (
                          refuse-eq-ok (reversed m.valid_from m.valid_until) reversed_interval
                            order) in
                        record {
                          subject = subject;
                          confirmed = confirmed_lem m.transition source.role role;
                          suits = mutation-Suits m m.transition target interval ordered;
                          ordered = ordered;
                          text_le = ground (arith, body);
                          conditions_le = ground (arith, count);
                          conditions_distinct = (check_conditions-Fresh m.conditions [] h7).0;
                        }

check_mutations-Sound :
    (source : Source) (ms : List Mutation) (seen : List Str)
    → check_mutations source ms seen ≡ ok tt
    → All (Sound source) ms × Fresh (targets ms) seen
unfolding check_mutations
check_mutations-Sound source [] seen h = (tt, Fresh-nil seen)
check_mutations-Sound source (m ∷ ms) seen h = >>=-from-ok (validate_mutation m) _ h λ _ valid h1.
    >>=-from-ok (refuse (not (str_eq m.subject source.subject)) wrong_subject) _ h1 λ _ subject h2.
      >>=-from-ok
        (refuse (not (str_eq m.target_record_id []) && contains seen m.target_record_id)
          repeated_target)
        _ h2
        λ _ new h3.
          >>=-from-ok
            (refuse (not (is_establish m.transition) && not (is_confirmation source.role))
              unconfirmed_edit)
            _ h3
            λ _ role h4.
              let rest = check_mutations-Sound source ms (m.target_record_id ∷ seen) h4 in
              (
                (
                  validate_mutation-Sound source m valid
                      ((str_eq_iff m.subject source.subject).0 (ground (arith, subject)))
                      (refuse-eq-ok
                        (not (is_establish m.transition) && not (is_confirmation source.role))
                        unconfirmed_edit role),
                  rest.0,
                ),
                fresh (str_eq m.target_record_id [])
                    (refuse-eq-ok
                      (not (str_eq m.target_record_id []) && contains seen m.target_record_id)
                      repeated_target new)
                    rest.1,
              )
  where
    fresh :
        (b : Bool)
        → not b && contains seen m.target_record_id ≡ false
        → Fresh (targets ms) (m.target_record_id ∷ seen)
        → Fresh (if b then targets ms else m.target_record_id ∷ targets ms) seen
    fresh true new rest = Fresh-tail m.target_record_id (targets ms) seen rest
    fresh false new rest = Fresh-cons m.target_record_id (targets ms) seen new rest

-- Evidence that is accepted has at most eight mutations, no two of which name the same target
-- record; each has the subject of the source, each that edits a record rests on a structured
-- confirmation and names a target and a revision, a change has an effective time, an exception
-- has a key and both ends of its interval, every interval is not empty, and each has at most
-- eight conditions with distinct keys.
pub validate_submit-Sound :
    (r : SubmitEvidenceRequest)
    → validate_submit r ≡ ok tt
    → (length r.mutations ≤ max_mutations)
      × All (Sound r.source) r.mutations
      × Distinct (targets r.mutations)
unfolding validate_submit
validate_submit-Sound r h = >>=-from-ok (safely_validate_evidence r) _ h λ _ _ h1.
    >>=-from-ok (refuse (ltb max_mutations (length r.mutations)) too_many_mutations) _ h1
      λ _ count h2.
        let checked = check_mutations-Sound r.source r.mutations [] h2 in
        (ground (arith, count), checked.0, checked.1.0)
