-- ===== src/Reference/Authority/Views.antt =====
-- The checks of `CreateView` make a View well formed.
use memory.Prelude.{
  ◌≡◌, ◌≢◌, sym, ap, ◌∙◌, arith, true, not, ◌||◌, nat_eq, Option, none, some, inl, inr, List, [],
  ◌∷◌, contains, Bool-cases,
}
use memory.Prelude.Map.{get, put}
use memory.Prelude.Result.{ok, refuse, >>=-from-ok}
use memory.Text.Bytes.{Str, Str-eq, str_eq, str_eq_iff}
use memory.Reference.Types.{SpaceClass, class_eq, class_eq_iff, Space, ViewDefinition}
use memory.Reference.State.{Server}
use memory.Reference.Config.{
  ConfigError, id_required, already_exists, no_read_space, duplicate_read_space, exists, is_nil,
  bad_write_space, wrong_disclosure_class, same_realm, restrict, read_spaces, write_space,
  create_view,
}
use memory.Reference.Authority.{ViewValid}

-- A Space that `read_spaces` met, given the class it found most restrictive.
record Met (s : Server) (realm id : Str) (most : SpaceClass) : Type 0 where
  space : Space
  found : get s.spaces id ≡ some space
  in_realm : space.realm_id ≡ realm
  disclosed : space.class ≡ SpaceClass.private → most ≡ SpaceClass.private

same_realm-eq-ok :
    (o : Option Space) (realm : Str) (e : ConfigError) (space : Space)
    → same_realm o realm e ≡ ok space
    → (o ≡ some space) × (space.realm_id ≡ realm)
same_realm-eq-ok none realm e space h = cc
same_realm-eq-ok (some p) realm e space h = ground (arith, str_eq_iff p.realm_id realm)

restrict_private :
    (most class : SpaceClass)
    → class ≡ SpaceClass.private
    → restrict most class ≡ SpaceClass.private
restrict_private most class e = ground arith

restrict_keeps :
    (most class : SpaceClass) → most ≡ SpaceClass.private → restrict most class ≡ SpaceClass.private
restrict_keeps most class e = ground arith

-- What a successful run of the loop says of the Spaces of the View.
record Walked (s : Server) (realm : Str) (ids seen seen' : List Str) (most most' : SpaceClass)
    : Type 0 where
  keeps : most ≡ SpaceClass.private → most' ≡ SpaceClass.private
  met : (id : Str) → contains ids id ≡ true → Met s realm id most'
  marks : (id : Str) → contains seen' id ≡ contains ids id || contains seen id

read_spaces-Walked :
    (s : Server) (realm : Str) (ids seen seen' : List Str) (most most' : SpaceClass)
    → read_spaces s realm ids seen most ≡ ok (seen', most')
    → Walked s realm ids seen seen' most most'
unfolding read_spaces contains
read_spaces-Walked s realm [] seen seen' most most' h = record {
  keeps = ground arith;
  met = λ id e. absurd (cc (e));
  marks = λ id. ground arith;
}
read_spaces-Walked s realm (i ∷ ids) seen seen' most most' h =
    >>=-from-ok (same_realm (get s.spaces i) realm _) _ h λ space found h1.
      >>=-from-ok (refuse (contains seen i) duplicate_read_space) _ h1 λ _ fresh h2.
        let rest =
          read_spaces-Walked s realm ids (i ∷ seen) seen' (restrict most space.class) most' h2 in
        let here = same_realm-eq-ok (get s.spaces i) realm _ space found in
        record {
          keeps = λ e. rest.keeps (restrict_keeps most space.class e);
          met = λ id e. elim (Bool-cases (str_eq i id)) [
            | inl same ↦ record {
              space = space;
              found = ap (get s.spaces) (sym ((str_eq_iff i id).0 same)) ∙ here.0;
              in_realm = here.1;
              disclosed = λ p. rest.keeps (restrict_private most space.class p);
            }
            | inr other ↦ rest.met id (ground (arith, other, e))
          ];
          marks = λ id. ground (arith, rest.marks id);
        }

write_space-eq-ok :
    (s : Server) (view : ViewDefinition) (seen : List Str) (most most' : SpaceClass)
    → write_space s view seen most ≡ ok most'
    → (most ≡ SpaceClass.private → most' ≡ SpaceClass.private)
      × (view.write_space_id ≢ [] → contains seen view.write_space_id ≡ true)
unfolding write_space
write_space-eq-ok s view seen most most' h = elim (Bool-cases (str_eq view.write_space_id [])) [
  | inl e ↦
      (λ p. ground (arith, e, h, p), λ n. absurd (n ((str_eq_iff view.write_space_id []).0 e)))
  | inr e ↦
      >>=-from-ok (same_realm (get s.spaces view.write_space_id) view.realm_id bad_write_space) _
        (rw e at h) λ space found h1. (λ p. ground (arith, h1, p), λ n. ground (arith, h1))
]

pub create_view-eq-ok :
    (s t : Server) (view : ViewDefinition)
    → create_view s view ≡ ok t
    → (t ≡ record s { views = put s.views view.id view }) × ViewValid s view
unfolding create_view contains
create_view-eq-ok s t view h =
    >>=-from-ok
      (refuse (str_eq view.id [] || str_eq view.realm_id [] || nat_eq view.version 0) id_required) _
      h
      λ _ _ h1. >>=-from-ok (refuse (exists (get s.views view.id)) already_exists) _ h1 λ _ _ h2.
        >>=-from-ok (refuse (is_nil view.read_space_ids) no_read_space) _ h2 λ _ _ h3.
          >>=-from-ok (read_spaces s view.realm_id view.read_space_ids [] SpaceClass.shared) _ h3
            λ r walked h4. >>=-from-ok (write_space s view r.0 r.1) _ h4 λ most written h5.
              >>=-from-ok
                (refuse (not (class_eq view.max_disclosure_class most)) wrong_disclosure_class)
                (λ _. ok (record s { views = put s.views view.id view })) h5
                λ _ class h6.
                  let w =
                    read_spaces-Walked s view.realm_id view.read_space_ids [] r.0 SpaceClass.shared
                      r.1 walked in
                  let v = write_space-eq-ok s view r.0 r.1 most written in
                  let same : view.max_disclosure_class ≡ most =
                    ground (arith, class_eq_iff view.max_disclosure_class most, class) in
                  (
                    ground (arith, h6),
                    record {
                      reads = λ id e.
                          let m = w.met id e in
                          record {
                            space = m.space;
                            found = m.found;
                            realm = m.in_realm;
                            disclosed = λ p. same ∙ v.0 (m.disclosed p);
                          };
                      writes = λ n. ground (arith, w.marks view.write_space_id, v.1 n);
                    },
                  )
