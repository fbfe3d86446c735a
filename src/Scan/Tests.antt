-- ===== src/Scan/Tests.antt =====
-- The scanner at concrete inputs, and the theorems applied there.
use xenolith.Common.{◌≡◌, ◌≢◌, refl, true, false}
use xenolith.Text.{codes, starts_with}
use xenolith.Scan.{
  comment, start_element, doctype, text, ok, found, pending, default_token_limits, limit, len_utf8,
  byte_len, cut, delimited, tag_loop, scan_start_tag,
}
use xenolith.Scan.Markup.{
  doctype_loop, scan_doctype, scan_markup_declaration, find_mark, held, text_fragment, scan_text,
  scan,
}
use xenolith.Scan.Complete.{scan_complete}
use xenolith.Scan.Bounds.{in_bounds, in_bounds-scan}
use xenolith.Scan.Resume.{scan-append}

scan_tag : scan (codes "<a b='>'>text") false default_token_limits 10 ≡ ok (found start_element 9)
unfolding scan scan_start_tag tag_loop starts_with byte_len len_utf8 limit
scan_tag = refl

scan_comment : scan (codes "<!-- a -->b") false default_token_limits 10 ≡ ok (found comment 10)
unfolding scan scan_markup_declaration delimited cut starts_with byte_len len_utf8 limit
scan_comment = refl

scan_declaration :
    scan (codes "<!DOCTYPE a [<!-- ]> --><!ENTITY e '>'>]>b") false default_token_limits 10
    ≡ ok (found doctype 41)
unfolding scan scan_markup_declaration scan_doctype doctype_loop cut starts_with byte_len len_utf8
    limit
scan_declaration = refl

scan_fragment : scan (codes "some text]]") false default_token_limits 10 ≡ ok (found text 9)
unfolding scan scan_text find_mark text_fragment held byte_len len_utf8
scan_fragment = refl

scan_complete_example : scan (codes "<a b") true default_token_limits 10 ≢ ok pending
scan_complete_example = scan_complete (codes "<a b") default_token_limits 10

in_bounds-scan_example :
    in_bounds (byte_len (codes "&amp;x")) (scan (codes "&amp;x") false default_token_limits 10)
    ≡ true
in_bounds-scan_example = in_bounds-scan (codes "&amp;x") false default_token_limits 10

scan-append_example :
    scan (codes "<!-- a -->bc") true default_token_limits 10 ≡ ok (found comment 10)
scan-append_example =
    scan-append (codes "!-- a -->b") (codes "c") true default_token_limits 10 comment 10
      scan_comment
