-- ===== src/Reference/Recall/Sources.antt =====
-- Where the candidates of Recall come from.
use memory.Prelude.{
  ◌≡◌, refl, sym, ap, ◌∙◌, arith, Bool, true, false, List, [], ◌∷◌, All, All-map, All-append,
  contains, ==_refl, if◌then◌else◌,
}
use memory.Prelude.Map.{get}
use memory.Text.Bytes.{Str, Str-eq}
use memory.Labels.{LabelSet, labels_eq, labels_eq_iff}
use memory.Reference.Types.{SpaceClass}
use memory.Reference.State.{Server, Context, check_context}
use memory.Reference.Remember.{ids_of, receipt_of}
use memory.Reference.Recall.{Candidate, class_of, space_sources, count_read, view_sources}
use memory.Reference.Gates.{check_context-Gate}
use memory.Reference.Machine.Frames.{SameStore}
use memory.Reference.Machine.Reads.{count_read-Keeps}
use memory.Reference.Recall.Returned.{Returned, Returned-bind, Returned-Gate, Keeps-Returned}

-- The candidate is the receipt of one of these identifiers and has exactly these labels.
pub record Listed (s : Server) (labels : LabelSet) (class : SpaceClass) (ids : List Str)
    (c : Candidate) : Type 0 where
  pub id : Str
  pub listed : contains ids id ≡ true
  pub receipt : c.receipt ≡ receipt_of (get s.receipts id)
  pub exact : c.receipt.labels ≡ labels
  pub same_class : c.class ≡ class

-- The candidate comes from one of these Spaces.
pub record Readable (s : Server) (labels : LabelSet) (spaces : List Str) (c : Candidate)
    : Type 0 where
  pub space_id : Str
  pub readable : contains spaces space_id ≡ true
  pub source :
      Listed s labels
        (class_of (get s.spaces space_id))
        (ids_of (get s.receipts_by_space space_id))
        c

contains_head : (x : Str) (xs : List Str) → contains (x ∷ xs) x ≡ true
unfolding contains
contains_head x xs = ground (arith, ==_refl x)

contains_tail : (x y : Str) (xs : List Str) → contains xs y ≡ true → contains (x ∷ xs) y ≡ true
unfolding contains
contains_tail x y xs h = ground (arith, h)

Listed_tail :
    (s : Server) (labels : LabelSet) (class : SpaceClass) (i : Str) (ids : List Str) (c : Candidate)
    → Listed s labels class ids c
    → Listed s labels class (i ∷ ids) c
Listed_tail s labels class i ids c l = record {
  id = l.id;
  listed = contains_tail i l.id ids l.listed;
  receipt = l.receipt;
  exact = l.exact;
  same_class = l.same_class;
}

Readable_tail :
    (s : Server) (labels : LabelSet) (i : Str) (ids : List Str) (c : Candidate)
    → Readable s labels ids c
    → Readable s labels (i ∷ ids) c
Readable_tail s labels i ids c r = record {
  space_id = r.space_id;
  readable = contains_tail i r.space_id ids r.readable;
  source = r.source;
}

module _ (s : Server) (labels : LabelSet) where
  space_sources-Listed :
      (class : SpaceClass) (ctx : Context) (ids : List Str) (t : Server)
      → SameStore s t
      → Returned
          (λ r u. SameStore s u × All (Listed s labels class ids) r.1)
          (space_sources ctx labels class ids t)
  unfolding space_sources
  space_sources-Listed class ctx [] t same = (same, tt)
  space_sources-Listed class ctx (i ∷ ids) t same =
      Returned-Gate Q (check_context ctx true) _ _ t (check_context-Gate ctx true t) λ ctx' _.
        Returned-bind (space_sources ctx' labels class ids) _ t
          (λ r u. SameStore s u × All (Listed s labels class ids) r.1) Q
          (space_sources-Listed class ctx' ids t same)
          λ r u h. (
            h.0,
            keep (labels_eq (receipt_of (get t.receipts i)).labels labels) refl r.1
                (All-map (λ c. Listed_tail s labels class i ids c) r.1 h.1),
          )
    where
      Q : Context × List Candidate → Server → Type 0
      Q r u = SameStore s u × All (Listed s labels class (i ∷ ids)) r.1

      keep :
          (b : Bool)
          → labels_eq (receipt_of (get t.receipts i)).labels labels ≡ b
          → (rest : List Candidate) → All (Listed s labels class (i ∷ ids)) rest
          → All (Listed s labels class (i ∷ ids)) (
              if b
              then record { receipt = receipt_of (get t.receipts i); class = class; score = 0 }
                ∷ rest
              else rest)
      keep true e rest h = (
        record {
          id = i;
          listed = contains_head i ids;
          receipt = ap (λ m. receipt_of (get m i)) same.receipts;
          exact = (labels_eq_iff _ labels).0 e;
          same_class = refl;
        },
        h,
      )
      keep false e rest h = h

  pub view_sources-Readable :
      (ctx : Context) (ids : List Str) (t : Server)
      → SameStore s t
      → Returned
          (λ r u. SameStore s u × All (Readable s labels ids) r.1)
          (view_sources ctx labels ids t)
  unfolding view_sources
  view_sources-Readable ctx [] t same = (same, tt)
  view_sources-Readable ctx (i ∷ ids) t same =
      Returned-Gate Q (check_context ctx true) _ _ t (check_context-Gate ctx true t) λ ctx' _.
        Returned-bind (count_read i) _ t (λ _ u. SameStore s u) Q
          (Keeps-Returned (count_read i) s t (count_read-Keeps i) same)
          λ _ u kept.
            Returned-bind (space_sources ctx' labels class listed) _ u
              (λ r w. SameStore s w × All (Listed s labels class listed) r.1) Q
              (space_sources-Listed class ctx' listed u kept)
              λ r w h.
                Returned-bind (view_sources r.0 labels ids) _ w
                  (λ q x. SameStore s x × All (Readable s labels ids) q.1) Q
                  (view_sources-Readable r.0 ids w h.0)
                  λ q x k. (
                    k.0,
                    All-append (Readable s labels (i ∷ ids)) r.1 q.1 (All-map here r.1 h.1)
                        (All-map (λ c. Readable_tail s labels i ids c) q.1 k.1),
                  )
    where
      Q : Context × List Candidate → Server → Type 0
      Q r u = SameStore s u × All (Readable s labels (i ∷ ids)) r.1

      class : SpaceClass
      class = class_of (get t.spaces i)

      listed : List Str
      listed = ids_of (get t.receipts_by_space i)

      here : (c : Candidate) → Listed s labels class listed c → Readable s labels (i ∷ ids) c
      here c l = record {
        space_id = i;
        readable = contains_head i ids;
        source = record {
          id = l.id;
          listed =
              ap (λ m. contains (ids_of (get m i)) l.id) (sym same.receipts_by_space) ∙ l.listed;
          receipt = l.receipt;
          exact = l.exact;
          same_class = l.same_class ∙ ap (λ m. class_of (get m i)) same.authority.spaces;
        };
      }
