-- ===== src/Dom/Tree/Accepted.antt =====
-- What an insertion has passed when `check_insertion` of crates/xenolith/src/dom/document.rs lets it.
use xenolith.Common.{ℕ, ◌≡◌, refl, ap, Bool, true, false, not, Option, none, some, arith, ==_iff}
use xenolith.Dom.{
  Document, NodeId, Result, ok, err, ◌>>◌, refuse_if, require_own, is_container, can_be_child,
  ExceptionCode, hierarchy_request_err, not_found_err,
}
use xenolith.Dom.Siblings.{is_some_of}
use xenolith.Dom.Insert.{
  would_cycle, check_reference, check_document_rule, check_insertion, require_own_reference,
  index_of,
}
use xenolith.Dom.Tree.Moves.{IsChildOf}

>>-ok : (r s : Result (Unit {0})) → (r >> s) ≡ ok tt → (r ≡ ok tt) × (s ≡ ok tt)
>>-ok (ok tt) s h = (refl, h)
>>-ok (err e) s h = cc

refuse_if-ok : (b : Bool) (e : ExceptionCode) → refuse_if b e ≡ ok tt → b ≡ false
refuse_if-ok true e h = cc
refuse_if-ok false e h = refl

is_some_of-eq : (o : Option ℕ) (x : ℕ) → is_some_of o x ≡ true → o ≡ some x
is_some_of-eq none x h = cc
is_some_of-eq (some y) x h = ap some ((==_iff y x).0 h)

-- What an accepted insertion has passed.
pub record Accepted (doc : Document) (p c : ℕ) (reference : Option ℕ) : Type 0 where
  pub container : is_container (doc.slot p).node_data ≡ true
  pub child : can_be_child (doc.slot c).node_data ≡ true
  pub acyclic : would_cycle doc p c ≡ false
  pub there : IsChildOf doc p reference

check_reference-ok :
    (doc : Document) (p : ℕ) (reference : Option NodeId)
    → check_reference doc p reference ≡ ok tt
    → IsChildOf doc p (index_of reference)
check_reference-ok doc p none h = tt
check_reference-ok doc p (some r) h =
    let found = refuse_if-ok (not (is_some_of (doc.slot r.index).parent p)) not_found_err h in
    is_some_of-eq (doc.slot r.index).parent p (ground arith)

pub check_insertion-Accepted :
    (doc : Document) (parent child : NodeId) (reference : Option NodeId)
    → check_insertion doc parent child reference ≡ ok tt
    → Accepted doc parent.index child.index (index_of reference)
unfolding check_insertion
check_insertion-Accepted doc parent child reference h =
    let (a, h1) = >>-ok (require_own doc parent) _ h in
    let (b, h2) = >>-ok (require_own doc child) _ h1 in
    let (c, h3) = >>-ok (require_own_reference doc reference) _ h2 in
    let (d, h4) = >>-ok _ _ h3 in
    let (e, h5) = >>-ok _ _ h4 in
    let (f, h6) = >>-ok _ _ h5 in
    let (g, rule) = >>-ok _ (check_document_rule doc parent.index child.index) h6 in
    record {
      container = ground (
        arith,
        refuse_if-ok (not (is_container (doc.slot parent.index).node_data)) hierarchy_request_err d,
      );
      child = ground (
        arith,
        refuse_if-ok (not (can_be_child (doc.slot child.index).node_data)) hierarchy_request_err e,
      );
      acyclic = refuse_if-ok _ hierarchy_request_err f;
      there = check_reference-ok doc parent.index reference g;
    }
