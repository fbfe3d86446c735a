-- ===== src/Lib.antt =====
-- xenolith: an XML processor in Rust, in the crate crates/xenolith. Bytes come in through a decoder
-- chosen by encoding detection, the scanner finds the boundaries of tokens in the characters, the
-- parser reads the tokens on a stack of entities with the namespaces in scope, and a DTD gives the
-- content models that elements are checked against. URI references name the resources, and the
-- writer escapes text for output. The files here model the parts of it that compute:
--
-- - Dtd/Content: `ContentModel` of crates/xenolith/src/dtd/validate/content.rs, with the particles of
--   dtd/model.rs. `compile` and `build` in Dtd/Content, `matches`, the failure report and
--   `is_deterministic` in Dtd/Content/Run; Dtd/Content/Language says what a particle allows.
-- - Uri: crates/xenolith/src/uri.rs. `UriReference`, `parse`, `new` and `Display` in Uri, `resolve`,
--   `remove_dot_segments` and `relativize` in Uri/Resolve, `normalize` and `escape_uri` in Uri/Normal.
-- - Scan: crates/xenolith/src/io/parse/scan.rs. Delimited tokens, start tags and references in Scan;
--   `scan_doctype`, `scan_text` and `scan` in Scan/Markup.
-- - Entity: `EntityStack` of crates/xenolith/src/io/parse/entity.rs, with the limits of config.rs
--   beside it. The stream of an entity is a parameter, `Stream`.
-- - Namespace: `NamespaceScope` of crates/xenolith/src/io/parse/namespace.rs.
-- - Detect: crates/xenolith/src/io/encoding/detect.rs, and Utf8, `str::from_utf8` as it is called there.
--   Encoding: builtin.rs and encoder.rs beside it.
-- - Decl: the text declaration, crates/xenolith/src/io/decl.rs.
-- - Stream: the character stream, crates/xenolith/src/io/stream.rs, and Location, of error.rs. The
--   decoder is a parameter, and Stream/Pieces names what it is relied on for, `IsIncremental`.
-- - Write: crates/xenolith/src/io/write/escape.rs and line_break.rs.
-- - Dom: the document tree, crates/xenolith/src/dom: node.rs and document.rs. The slots in Dom, `detach`,
--   `link_last` and `link_before` in Dom/Links, the checks and `insert_before`, `replace_child` and
--   `remove_child` in Dom/Insert, the `create_*` methods in Dom/Action and Dom/Create, the attributes
--   in Dom/Attributes, the walks of walk.rs in Dom/Walk. Dom/Forest is the abstract view, the list of
--   the children of every node; Dom/Tree has the invariant, and Dom/Reach the documents that calls can
--   build.
-- - Name: `NamePool` of crates/xenolith/src/name.rs, which the documents keep their names in.
-- - Event: the events of a document, crates/xenolith/src/event.rs, with what attr.rs and dtd/model.rs
--   give them.
-- - Xpointer: the element() scheme, crates/xenolith/src/xpointer/element.rs. Xpointer/Trees has
--   documents as trees and the element that a scheme points to.
-- - Chars: crates/xenolith/src/chars.rs.
-- - Text and Common: texts as lists of code points, and what the files share on lists and tests.
--
-- A text is the list of its code points, and a length in bytes is computed from it where the source
-- has one. Rust's `usize` is unbounded here, but the saturating counts of the entity stack and the
-- range of the positions that a pointer may have are written out. A mutable structure is passed on
-- explicitly, and a `Result` is a data type of the component, without the words of its message.
-- Loops are structural, or run on fuel: for `remove_dot_segments`, `scan_doctype`, `push_cdata`,
-- `scan_for_encoding` and the attributes of `text_declaration_span` the fuel is the length of the
-- input, of which every round takes a character at least. The loops over the links of a document run
-- on the number of its slots, which a well-formed document never exceeds: its nodes are distinct and
-- below that number. The links of a slot are indices, as they are handles of its own document; the
-- handles of callers keep their document. A walk runs on the number of visits it may report.
--
-- Not modelled: input and output and the asynchronous readers; the parser itself, copies of
-- nodes, the document builder, the consumers of events, XPath, the other parts of XPointer, and
-- XInclude, which are to follow; the UTF-8 decoder of builtin.rs and the encodings of the
-- third-party package; positions in messages.
pub mod Common
pub mod Text
pub mod Utf8
pub mod Uri
pub mod Dtd
pub mod Entity
pub mod Chars
pub mod Scan
pub mod Encoding
pub mod Write
pub mod Event
pub mod Xpointer
pub mod Namespace
pub mod Detect
pub mod Decl
pub mod Dom
pub mod Name
pub mod Location
pub mod Stream
