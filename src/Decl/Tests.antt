-- ===== src/Decl/Tests.antt =====
-- Text declarations at concrete inputs, and the theorem applied there.
use xenolith.Common.{◌≡◌, refl, true, false}
use xenolith.Text.{codes, starts_with, after, eq_text}
use xenolith.Scan.{byte_len, len_utf8}
use xenolith.Detect.{before_end}
use xenolith.Decl.{
  ok, err, present, version_after_encoding, pseudo_attribute, refused, attributes_loop,
  text_declaration_span,
}
use xenolith.Decl.Span.{Spans, text_declaration_span-Spans}

span_utf8 : text_declaration_span (codes "<?xml encoding='UTF-8'?><a/>") false ≡ ok (present 24)
unfolding text_declaration_span starts_with byte_len len_utf8 before_end attributes_loop
    pseudo_attribute refused eq_text after
span_utf8 = refl

span_order :
    text_declaration_span (codes "<?xml encoding='UTF-8' version='1.0'?>") true
    ≡ err version_after_encoding
unfolding text_declaration_span starts_with byte_len len_utf8 before_end attributes_loop
    pseudo_attribute refused eq_text after
span_order = refl

text_declaration_span-Spans_example :
    Spans
      (codes "<?xml encoding='UTF-8'?><a/>")
      false
      (text_declaration_span (codes "<?xml encoding='UTF-8'?><a/>") false)
text_declaration_span-Spans_example =
    text_declaration_span-Spans (codes "<?xml encoding='UTF-8'?><a/>") false
