-- ===== src/Entity/Tests.antt =====
-- The entity stack at concrete inputs, and the theorems applied there. A stream is here the text that
-- is left, and what it is fed are the codes of its characters.
use xenolith.Common.{◌≡◌, refl, true, ◌++◌, none, some, length}
use xenolith.Text.{Text, codes, eq_text}
use xenolith.Entity.{
  internal_general, recursion, Stream, Entity, EntityStack, done, failed, new_entity,
  document_entity, new_stack, is_open, count_expansion_chars, count_expansion, push, pop, feed,
  default_limits,
}
use xenolith.Entity.Count.{IsSound}
use xenolith.Entity.Safety.{start, pushed, fed, popped, Run-IsSound, pop-push}

abbrev io : Stream Text
io = record {
  system_id = λ s. none;
  chars_decoded = λ s. length s;
  feed_stream = λ s bytes last. some (length bytes, s ++ bytes);
}

abbrev first : EntityStack Text
first = new_stack (document_entity io (codes "<a>&e;</a>")) default_limits

abbrev replacement : Entity Text
replacement = new_entity io (some (codes "e")) internal_general (codes "text") none

abbrev second : EntityStack Text
second = (push io replacement first).1

push_opens : (push io replacement first).0 ≡ done
unfolding push is_open eq_text count_expansion count_expansion_chars new_entity
push_opens = refl

push_again : (push io replacement second).0 ≡ failed (recursion (codes "e"))
unfolding push is_open eq_text count_expansion count_expansion_chars new_entity
push_again = refl

feed-second : (feed io (codes "!") true second).0 ≡ done
unfolding feed push is_open eq_text count_expansion count_expansion_chars new_entity
feed-second = refl

Run-IsSound_example : IsSound default_limits 1 (pop (feed io (codes "!") true second).1).1
unfolding new_entity
Run-IsSound_example =
    Run-IsSound io (codes "<a>&e;</a>") default_limits 1 (pop (feed io (codes "!") true second).1).1
      refl (popped (fed (codes "!") true (pushed replacement start push_opens) feed-second))

pop-push_example :
    pop (push io replacement first).1
    ≡ (some replacement, record (push io replacement first).1 { entities = first.entities })
pop-push_example = pop-push io replacement first refl push_opens
