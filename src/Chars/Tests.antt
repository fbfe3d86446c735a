-- ===== src/Chars/Tests.antt =====
-- Names at concrete inputs, and the theorems applied there.
use xenolith.Common.{◌≡◌, ◌↔◌, refl, some, none}
use xenolith.Text.{codes, after}
use xenolith.Chars.{
  is_ncname, is_ncname_char, is_ncname_start_char, is_name_char, is_name_start_char, split_qname,
}
use xenolith.Chars.Names.{lexical, IsPair, split_qname_iff}

split_template : split_qname (codes "xsl:template") ≡ some (some (codes "xsl"), codes "template")
unfolding split_qname after is_ncname is_ncname_char is_ncname_start_char is_name_char
    is_name_start_char
split_template = refl

split_twice : split_qname (codes "a:b:c") ≡ none
unfolding split_qname after is_ncname is_ncname_char is_ncname_start_char is_name_char
    is_name_start_char
split_twice = refl

split_qname_iff_example :
    (split_qname (codes "xsl:template") ≡ some (some (codes "xsl"), codes "template")) ↔ (
      (codes "xsl:template" ≡ lexical (some (codes "xsl"), codes "template"))
      × IsPair (some (codes "xsl"), codes "template"))
split_qname_iff_example =
    split_qname_iff (codes "xsl:template") (some (codes "xsl"), codes "template")
