-- ===== src/Sse/Runs.antt =====
-- Concrete runs of the stream, and the theorems at concrete inputs.
use enil.Common.{◌≡◌, refl, true, false, [], ◌∷◌, arith}
use enil.Common.Int.{pos}
use enil.Common.Text.{codes, text_eq, has_prefix, c_string}
use enil.Common.Samples.{sample_cjson, sample_numbers}
use enil.Sse.{
  Env, State, feed_byte, write_cb, process_line, take_type, take_data, dispatch_event, finish,
  accept, advance, append_buffer, strip_cr, enil_sse_event_revision, enil_sse_save_local_rev,
  advance_to,
}
use enil.Sse.Cursor.{Moves, feed_byte-Moves}
use enil.Sse.Bounds.{IsBounded, write_cb-IsBounded}

abbrev pub willing : Env
willing = record {
  grants = λ n. true;
  deliver = λ old ev. record { accepted = true; failed = false; stop = false; kick = false };
  saves = λ rev. true;
  cjson = sample_cjson;
  numbers = sample_numbers;
}

abbrev pub idle : State
idle = record {
  line = record { text = []; cap = 0 };
  event_type = [];
  content = record { text = []; cap = 0 };
  has_data = false;
  local_rev = pos 2;
  stop = false;
  reconnect = false;
  delivery_failed = false;
  line_failed = false;
  last_activity = 0;
  handed = [];
}

two_data_lines :
    (write_cb willing 9 idle (codes "data: ab\r\ndata:c\n\n")).0.handed
    ≡ record { type = codes "message"; content = codes "ab\nc" } ∷ []
unfolding write_cb feed_byte process_line take_type take_data dispatch_event finish accept advance
    append_buffer strip_cr text_eq has_prefix c_string enil_sse_save_local_rev
    enil_sse_event_revision
two_data_lines = refl

cursor_moves : (write_cb willing 9 idle (codes "data: abcd\n\n")).0.local_rev ≡ pos 4
unfolding write_cb feed_byte process_line take_type take_data dispatch_event finish accept advance
    append_buffer strip_cr text_eq has_prefix c_string enil_sse_event_revision
    enil_sse_save_local_rev advance_to
cursor_moves = refl

feed_byte-Moves_example : Moves willing idle (feed_byte willing idle 10).0
feed_byte-Moves_example = feed_byte-Moves willing idle 10

write_cb-IsBounded_example : IsBounded (write_cb willing 9 idle (codes "data: abcd\n\n")).0
write_cb-IsBounded_example =
    write_cb-IsBounded willing 9 idle (codes "data: abcd\n\n") (omega arith)
