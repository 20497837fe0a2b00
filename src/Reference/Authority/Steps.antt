-- ===== src/Reference/Authority/Steps.antt =====
-- The bootstrap operations keep the administrative state well formed.
use memory.Prelude.{
  ◌≡◌, refl, sym, ap, ◌∙◌, subst, arith, false, not, ◌||◌, Option, none, some, ◌⊎◌, inl, inr, [],
  Bool-cases, nat_eq, ltb,
}
use memory.Prelude.Map.{Map, get, put, get-put}
use memory.Prelude.Result.{ok, refuse, >>=-from-ok, refuse-eq-ok, ok-injective}
use memory.Requests.{Time}
use memory.Text.Bytes.{Str, Str-eq, str_eq, str_eq_iff}
use memory.Reference.Types.{SpaceClass, Realm, Identity, Space, ViewDefinition, Grant}
use memory.Reference.State.{Server}
use memory.Reference.Config.{
  exists, require, is_nil, id_required, already_exists, realm_missing, view_missing, grant_expired,
  no_operations_or_audiences, create_realm, create_identity, create_space, create_view,
  create_grant, check_class, check_operations, check_audiences,
}
use memory.Reference.Machine.Frames.{SameAuthority}
use memory.Reference.Authority.{ViewValid, ViewValid-keeps, AuthorityValid}
use memory.Reference.Authority.Views.{create_view-eq-ok}

-- What a map holds stays when a new key is added.
pub get-put_fresh :
    {V : Type 0} (m : Map Str V) (k j : Str) (x v : V)
    → exists (get m k) ≡ false
    → get m j ≡ some v
    → get (put m k x) j ≡ some v
get-put_fresh m k j x v fresh found = elim (Bool-cases (str_eq k j)) [
  | inl e ↦
      absurd
        (clash (get m j) found (ap (λ i. exists (get m i)) (sym ((str_eq_iff k j).0 e)) ∙ fresh))
  | inr e ↦ rw (get-put, e) found
]
  where
    clash : (o : Option _) → o ≡ some v → exists o ≡ false → ⊥
    clash none found fresh = cc
    clash (some w) found fresh = cc

-- What a map holds after an assignment is new or was there before.
pub get-put_cases :
    {V : Type 0} (m : Map Str V) (k j : Str) (x v : V)
    → get (put m k x) j ≡ some v
    → ((j ≡ k) × (v ≡ x)) ⊎ (get m j ≡ some v)
get-put_cases m k j x v h = elim (Bool-cases (str_eq k j)) [
  | inl e ↦ inl (sym ((str_eq_iff k j).0 e), ground (arith, rw (get-put, e) at h))
  | inr e ↦ inr (rw (get-put, e) at h)
]

pub SameAuthority-Valid : (s t : Server) → SameAuthority s t → AuthorityValid s → AuthorityValid t
SameAuthority-Valid s t a v = record {
  classes = λ id space e. v.classes id space (subst (λ m. get m id ≡ some space) a.spaces e);
  views = λ id view e.
      ViewValid-keeps s t view (λ i space. subst (λ m. get m i ≡ some space) (sym a.spaces))
        (v.views id view (subst (λ m. get m id ≡ some view) a.views e));
  grants = λ id grant e. v.grants id grant (subst (λ m. get m id ≡ some grant) a.grants e);
  capabilities = λ token c e.
      let covered = v.capabilities token c (subst (λ m. get m token ≡ some c) a.capabilities e) in
      (
        covered.0,
        subst (λ m. get m c.grant_id ≡ some covered.0) (sym a.grants) covered.1,
        covered.2,
      );
}

module _ (s t : Server) where
  pub create_realm-Same : (realm : Realm) → create_realm s realm ≡ ok t → SameAuthority s t
  unfolding create_realm
  create_realm-Same realm h = >>=-from-ok (refuse (str_eq realm.id []) id_required) _ h λ _ _ h1.
      >>=-from-ok (refuse (exists (get s.realms realm.id)) already_exists) _ h1 λ _ _ h2.
        subst (SameAuthority s) (ok-injective h2)
          (record { spaces = refl; views = refl; grants = refl; capabilities = refl })

  pub create_identity-Same :
      (identity : Identity) → create_identity s identity ≡ ok t → SameAuthority s t
  unfolding create_identity
  create_identity-Same identity h =
      >>=-from-ok (refuse (str_eq identity.id [] || str_eq identity.realm_id []) id_required) _ h
        λ _ _ h1.
          >>=-from-ok (refuse (not (exists (get s.realms identity.realm_id))) realm_missing) _ h1
            λ _ _ h2.
              >>=-from-ok (refuse (exists (get s.identities identity.id)) already_exists) _ h2
                λ _ _ h3.
                  subst (SameAuthority s) (ok-injective h3)
                    (record { spaces = refl; views = refl; grants = refl; capabilities = refl })

  pub create_space-grants : (space : Space) → create_space s space ≡ ok t → t.grants ≡ s.grants
  unfolding create_space
  create_space-grants space h =
      >>=-from-ok (refuse (str_eq space.id [] || str_eq space.realm_id []) id_required) _ h
        λ _ _ h1.
          >>=-from-ok (refuse (not (exists (get s.realms space.realm_id))) realm_missing) _ h1
            λ _ _ h2. >>=-from-ok (check_class s space space.class) _ h2 λ _ _ h3.
              >>=-from-ok (refuse (exists (get s.spaces space.id)) already_exists) _ h3
                λ _ _ h4. ap (λ u. u.grants) (sym (ok-injective h4))

  pub create_grant-eq-ok :
      (now : Time) (grant : Grant)
      → create_grant s now grant ≡ ok t
      → (exists (get s.grants grant.id) ≡ false)
        × (t ≡ record s { grants = put s.grants grant.id grant })
  unfolding create_grant
  create_grant-eq-ok now grant h =
      >>=-from-ok
        (refuse
          (str_eq grant.id []
            || str_eq grant.principal_ref []
            || str_eq grant.actor_ref []
            || str_eq grant.view_ref []
            || nat_eq grant.version 0)
          id_required)
        _ h
        λ _ _ h1.
          >>=-from-ok (refuse (exists (get s.grants grant.id)) already_exists) _ h1 λ _ free h2.
            >>=-from-ok (require (get s.views grant.view_ref) view_missing) _ h2 λ view _ h3.
              >>=-from-ok (refuse (not (ltb now grant.expires_at)) grant_expired) _ h3 λ _ _ h4.
                >>=-from-ok
                  (refuse (is_nil grant.allowed_operations || is_nil grant.allowed_audiences)
                    no_operations_or_audiences)
                  _ h4
                  λ _ _ h5. >>=-from-ok (check_operations grant.allowed_operations) _ h5 λ _ _ h6.
                    >>=-from-ok
                      (check_audiences s view grant.allowed_operations grant.allowed_audiences) _ h6
                      λ _ _ h7. (
                        refuse-eq-ok (exists (get s.grants grant.id)) already_exists free,
                        sym (ok-injective h7),
                      )

module _ (s t : Server) (v : AuthorityValid s) where
  pub create_view-Valid : (view : ViewDefinition) → create_view s view ≡ ok t → AuthorityValid t
  create_view-Valid view h =
      let made = create_view-eq-ok s t view h in
      subst AuthorityValid (sym made.0) (record {
        classes = v.classes;
        views = λ id w e. elim (get-put_cases s.views view.id id view w e) [
          | inl new ↦ ViewValid-keeps s _ w (λ _ _ x. x) (subst (ViewValid s) (sym new.1) made.1)
          | inr old ↦ ViewValid-keeps s _ w (λ _ _ x. x) (v.views id w old)
        ];
        grants = v.grants;
        capabilities = v.capabilities;
      })

  known_class :
      (space : Space) (c : SpaceClass)
      → check_class s space c ≡ ok tt
      → (c ≡ SpaceClass.private) ⊎ (c ≡ SpaceClass.shared)
  unfolding check_class
  known_class space SpaceClass.private h = inl refl
  known_class space SpaceClass.shared h = inr refl
  known_class space (SpaceClass.other c) h = absurd (cc)

  pub create_space-Valid : (space : Space) → create_space s space ≡ ok t → AuthorityValid t
  unfolding create_space
  create_space-Valid space h =
      >>=-from-ok (refuse (str_eq space.id [] || str_eq space.realm_id []) id_required) _ h
        λ _ _ h1.
          >>=-from-ok (refuse (not (exists (get s.realms space.realm_id))) realm_missing) _ h1
            λ _ _ h2. >>=-from-ok (check_class s space space.class) _ h2 λ _ class h3.
              >>=-from-ok (refuse (exists (get s.spaces space.id)) already_exists) _ h3 λ _ free h4.
                let fresh = refuse-eq-ok (exists (get s.spaces space.id)) already_exists free in
                subst AuthorityValid (ok-injective h4) (record {
                  classes = λ id p e. elim (get-put_cases s.spaces space.id id space p e) [
                    | inl new ↦
                        subst (λ q. (q.class ≡ SpaceClass.private) ⊎ (q.class ≡ SpaceClass.shared))
                          (sym new.1) (known_class space space.class class)
                    | inr old ↦ v.classes id p old
                  ];
                  views = λ id w e.
                      ViewValid-keeps s _ w (λ i p. get-put_fresh s.spaces space.id i space p fresh)
                        (v.views id w e);
                  grants = v.grants;
                  capabilities = v.capabilities;
                })

  pub create_grant-Valid :
      (now : Time) (grant : Grant) → create_grant s now grant ≡ ok t → AuthorityValid t
  create_grant-Valid now grant h =
      let made = create_grant-eq-ok s t now grant h in
      subst AuthorityValid (sym made.1) (record {
        classes = v.classes;
        views = λ id w e. ViewValid-keeps s _ w (λ _ _ x. x) (v.views id w e);
        grants = λ id g e. elim (get-put_cases s.grants grant.id id grant g e) [
          | inl new ↦ cc (new.0, new.1)
          | inr old ↦ v.grants id g old
        ];
        capabilities = λ token c e.
            let covered = v.capabilities token c e in
            (
              covered.0,
              get-put_fresh s.grants grant.id c.grant_id grant covered.0 made.0 covered.1,
              covered.2,
            );
      })
