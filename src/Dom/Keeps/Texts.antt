-- ===== src/Dom/Keeps/Texts.antt =====
-- Appending text keeps the tree well formed: `append_text` of crates/xenolith/src/dom/document.rs.
use xenolith.Common.{ℕ, ◌≤◌, ◌≡◌, refl, ◌++◌, Option, none, some, arith, Option-cases, inl, inr}
use xenolith.Text.{Text}
use xenolith.Dom.{
  is_container, can_be_child, Document, NodeId, NodeData, Result, ok, err, text, require_own,
}
use xenolith.Dom.Insert.{append_child}
use xenolith.Dom.Tree.{IsWellFormed}
use xenolith.Dom.Forest.{Forest}
use xenolith.Dom.Tree.Calls.{Leaves, IsIssued, append_child-Leaves}
use xenolith.Dom.Action.{Action, continue, push_at, ◌>>=◌, gets, next_node_index, push}
use xenolith.Dom.Create.{create_text_node, append_text, last_text, text_of, extend_text}
use xenolith.Dom.Keeps.{push-Keeps, set_data-IsWellFormed}

pub Leaves-IsWellFormed :
    (doc : Document) (id : NodeId) (lists : Forest) (r : Result NodeId × Document)
    → IsWellFormed doc
    → Leaves doc id lists r
    → IsWellFormed (r.1)
Leaves-IsWellFormed doc id lists (ok i, doc') good h = h.1
Leaves-IsWellFormed doc id lists (err e, doc') good h = rw h good

pub continue-IsWellFormed {ℓ κ} :
    {A : Type ℓ} {B : Type κ} (f : A → Action B) (r : Result A) (doc : Document)
    → IsWellFormed doc
    → ((a : A) → r ≡ ok a → IsWellFormed (f a doc).1)
    → IsWellFormed (continue f r doc).1
continue-IsWellFormed f (ok a) doc good h = h a refl
continue-IsWellFormed f (err e) doc good h = good

pub text_of-text : (payload : NodeData) (s : Text) → text_of payload ≡ some s → payload ≡ text s
text_of-text payload s h = ground arith

pub last_text-text :
    (doc : Document) (o : Option ℕ) (last : ℕ) (s : Text)
    → last_text doc o ≡ some (last, s)
    → (doc.slot last).node_data ≡ text s
last_text-text doc none last s h = cc
last_text-text doc (some i) last s h = elim (Option-cases (text_of (doc.slot i).node_data)) [
  | inl e ↦ absurd (ground arith)
  | inr (t, e) ↦ ground (arith, text_of-text (doc.slot i).node_data t e)
]

pub push_at-IsIssued :
    (payload : NodeData) (o : Option ℕ) (doc : Document)
    → ((i : ℕ) → o ≡ some i → i ≡ doc.held)
    → (a : NodeId) → (push_at payload o doc).0 ≡ ok a
    → IsIssued (push_at payload o doc).1 a × (doc.held ≤ (push_at payload o doc).1.held)
push_at-IsIssued payload none doc place a h = cc
push_at-IsIssued payload (some i) doc place a h = ground (arith, place i refl)

pub push-IsIssued :
    (payload : NodeData) (doc : Document) (a : NodeId)
    → (push payload doc).0 ≡ ok a
    → IsIssued (push payload doc).1 a × (doc.held ≤ (push payload doc).1.held)
unfolding push next_node_index
push-IsIssued payload doc a h =
    push_at-IsIssued payload (next_node_index doc.held) doc (λ i e. ground arith) a h

pub extend_text-IsWellFormed :
    (parent : NodeId) (s : Text) (doc : Document) (found : Option (ℕ × Text))
    → IsWellFormed doc
    → IsIssued doc parent
    → ((last : ℕ) (t : Text) → found ≡ some (last, t) → (doc.slot last).node_data ≡ text t)
    → IsWellFormed (extend_text parent s found doc).1
unfolding is_container can_be_child create_text_node
extend_text-IsWellFormed parent s doc (some (last, t)) good b h =
    set_data-IsWellFormed last (text (t ++ s)) doc (rw (h last t refl) (refl, refl, refl)) good
extend_text-IsWellFormed parent s doc none good b h =
    continue-IsWellFormed (append_child parent) (create_text_node s doc).0
      (create_text_node s doc).1 (push-Keeps (text s) doc good)
      (λ a e.
        let (issued, more) = push-IsIssued (text s) doc a e in
        let doc' = (push (text s) doc).1 in
        Leaves-IsWellFormed doc' a _ (append_child parent a doc') (push-Keeps (text s) doc good)
          (append_child-Leaves doc' parent a (push-Keeps (text s) doc good) (omega arith) issued))

pub append_text-IsWellFormed :
    (parent : NodeId) (s : Text) (doc : Document)
    → IsWellFormed doc
    → IsIssued doc parent
    → IsWellFormed (append_text parent s doc).1
unfolding append_text
append_text-IsWellFormed parent s doc good b =
    let found = last_text doc (doc.slot parent.index).last_child in
    continue-IsWellFormed
      (λ _. gets (λ d. last_text d (d.slot parent.index).last_child) >>= extend_text parent s)
      (require_own doc parent) doc good
      (λ u e.
        extend_text-IsWellFormed parent s doc found good b
          (λ last t. last_text-text doc (doc.slot parent.index).last_child last t))
