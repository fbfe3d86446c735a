-- ===== src/Write/Tests.antt =====
-- Writing at concrete inputs, and the theorems applied there.
use xenolith.Common.{false, ◌≡◌, refl, some}
use xenolith.Text.{Text, codes, starts_with}
use xenolith.Write.{
  push_text, attribute_char, push_attribute, push_section, find_end, cdata_loop, push_cdata,
}
use xenolith.Write.Cdata.{read_content, read-push_cdata}
use xenolith.Write.Read.{read, text_literal, attribute_literal, read-push}

write_attribute : push_attribute (codes "a<b&\"") ≡ codes "a&lt;b&amp;&quot;"
unfolding push_attribute attribute_char
write_attribute = refl

write_cdata : push_cdata (codes "a]]]>]]>b") ≡ codes "<![CDATA[a]]]>]]&gt;]]&gt;<![CDATA[b]]>"
unfolding push_cdata cdata_loop find_end push_section starts_with
write_cdata = refl

write_end : push_cdata (codes "]]>") ≡ codes "]]&gt;"
unfolding push_cdata cdata_loop find_end push_section starts_with
write_end = refl

abbrev sample : Text
sample = codes "1 < 2 & \"3\" > ]]>"

read-push_example :
    (read text_literal 0 (push_text sample) ≡ some sample)
    × (read attribute_literal 0 (push_attribute sample) ≡ some sample)
read-push_example = read-push sample

read-push_cdata_example :
    read_content false 0 (push_cdata (codes "a]]]>]]>b")) ≡ some (codes "a]]]>]]>b")
read-push_cdata_example = read-push_cdata (codes "a]]]>]]>b") refl
