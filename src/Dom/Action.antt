-- ===== src/Dom/Action.antt =====
-- A call on a document: its result, and the document after it. The parts of
-- crates/xenolith/src/dom/document.rs that new nodes and names go through.
use xenolith.Common.{ℕ, ◌+◌, ◌^◌, Option, none, some, ◌==◌, ltb, if◌then◌else◌}
use xenolith.Text.{Text}
use xenolith.Name
use xenolith.Name.{NameId, NamePool, new_pool}
use xenolith.Chars.{split_qname}
use xenolith.Dom.{
  Document, NodeId, NodeData, new_slot, QName, Result, ok, err, document, not_supported_err,
  invalid_character_err,
}

abbrev pub Action {ℓ} : Type ℓ → Type ℓ
Action A = Document → Result A × Document

abbrev pub continue {ℓ κ} : {A : Type ℓ} {B : Type κ} → (A → Action B) → Result A → Action B
continue f (ok a) doc = f a doc
continue f (err e) doc = (err e, doc)

infixl 5 ◌>>=◌ ◌>>◌
abbrev pub ◌>>=◌ {ℓ κ} : {A : Type ℓ} {B : Type κ} → Action A → (A → Action B) → Action B
◌>>=◌ m f doc = let (r, doc') = m doc in continue f r doc'

abbrev pub ◌>>◌ {ℓ κ} : {A : Type ℓ} {B : Type κ} → Action A → Action B → Action B
m >> k = m >>= λ _. k

abbrev pub pure {ℓ} : {A : Type ℓ} → A → Action A
pure a doc = (ok a, doc)

-- A check reads the document and does not change it.
abbrev pub check {ℓ} : {A : Type ℓ} → (Document → Result A) → Action A
check f doc = (f doc, doc)

abbrev pub gets {ℓ} : {A : Type ℓ} → (Document → A) → Action A
gets f doc = (ok (f doc), doc)

abbrev pub change : (Document → Document) → Action (Unit {0})
change f doc = (ok tt, f doc)

-- `Document::new`, with the identities that the counters of the process give.
unfoldable pub new_document : ℕ → ℕ → Document
new_document id pool_id = record {
  id = id;
  held = 1;
  slot = λ _. new_slot document;
  pool = new_pool pool_id;
  base = none;
}

-- `u32::try_from(held).ok()`
unfoldable pub next_node_index : ℕ → Option ℕ
next_node_index held = if ltb held (2 ^ 32) then some held else none

-- The slot at the end of the arena.
abbrev pub add_slot : NodeData → Document → Document
add_slot payload doc = record doc {
  held = doc.held + 1;
  slot = λ i. if doc.held == i then new_slot payload else doc.slot i;
}

abbrev pub push_at : NodeData → Option ℕ → Action NodeId
push_at payload none doc = (err not_supported_err, doc)
push_at payload (some i) doc = (ok (record { document = doc.id; index = i }), add_slot payload doc)

unfoldable pub push : NodeData → Action NodeId
push payload doc = push_at payload (next_node_index doc.held) doc

abbrev pub interned : Option NameId → Action NameId
interned none doc = (err not_supported_err, doc)
interned (some id) doc = (ok id, doc)

unfoldable pub intern : Text → Action NameId
intern name doc =
    let (id, pool) = Name.intern name doc.pool in interned id (record doc { pool = pool })

-- `map(|name| self.intern(name)).transpose()`
abbrev pub intern_option : Option Text → Action (Option NameId)
intern_option none = pure none
intern_option (some name) = do id ← intern name; pure (some id)

abbrev pub intern_parts : Option NameId → Option (Option Text × Text) → Action QName
intern_parts namespace none doc = (err invalid_character_err, doc)
intern_parts namespace (some (prefix, local)) doc =
    (do
      prefix_id ← intern_option prefix
      local_id ← intern local
      pure (record { prefix = prefix_id; namespace = namespace; local = local_id }))
      doc

unfoldable pub parse_qname : Text → Option NameId → Action QName
parse_qname qualified_name namespace = intern_parts namespace (split_qname qualified_name)
