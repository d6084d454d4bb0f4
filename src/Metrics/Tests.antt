-- ===== src/Metrics/Tests.antt =====
-- Runs of the metrics client, and the theorems at concrete inputs. The floats are whole numbers.
use baseplate_py.Prelude.{
  ◌*◌, ◌≡◌, refl, ◌≤◌, true, ◌&&◌, none, some, List, [], ◌∷◌, Bytes, codes, decimal, length,
  if◌then◌else◌,
}
use baseplate_py.Prelude.Int.{ℤ, pos, pos_part, neg_part, ◌+ℤ◌, ltb_ℤ, leb_ℤ, sub_ℕ}
use baseplate_py.Metrics.{
  Floats, Socket, Batch, Op, increment, time, counter_line, encode_ascii, metric_join, metric_name,
  join, strip_nonempty, lstrip_dots, rstrip_dots, format_tags, flush, timer_line, apply, count_in,
  bump, add_packet, bytes_eq, tag_parts,
}
use baseplate_py.Metrics.Totals.{run}
use baseplate_py.Metrics.Timer.{start, stop, new_timer, run_calls, reported_once}

abbrev negated : ℤ → ℤ
negated a = sub_ℕ (neg_part a) (pos_part a)

abbrev floats : Floats ℤ
floats = record {
  float_zero = pos 0;
  float_one = pos 1;
  thousand = pos 1000;
  add = ◌+ℤ◌;
  minus = λ a b. a +ℤ negated b;
  times = λ a b. sub_ℕ (pos_part a * pos_part b) (neg_part a * pos_part b);
  negate = negated;
  less = ltb_ℤ;
  same = λ a b. leb_ℤ a b && leb_ℤ b a;
  format_g = λ a. decimal (pos_part a);
}

-- A socket that keeps what it is sent, and takes messages of at most 60 bytes.
abbrev socket : Socket (List Bytes)
socket = record {
  sendall = λ s w. (if leb_ℤ (pos (length s)) (pos 60) then none else some true, s ∷ w);
}

abbrev hits : Bytes
hits = codes "hits"

abbrev batch : Batch floats
batch = record { namespace = codes "app"; buffer = []; counters = [] }

abbrev requests : List (Op floats)
requests =
    increment hits [] (pos 2) (pos 1)
    ∷ time (codes "latency") [] (pos 3) (pos 1)
    ∷ increment hits [] (pos 5) (pos 1)
    ∷ []

abbrev full_name : Bytes
full_name = codes "app.hits"

flush_message :
    (flush socket floats (run floats requests batch) []).2
    ≡ codes "app.latency:3000|ms\napp.hits:7|c" ∷ []
unfolding run apply count_in bump add_packet bytes_eq metric_name metric_join encode_ascii
    strip_nonempty lstrip_dots rstrip_dots join timer_line counter_line flush ◌+ℤ◌ format_tags
    tag_parts decimal
flush_message = refl

reported_once_example :
    length
      (run_calls floats
        (start (pos 1) (pos 5) ∷ stop (pos 7) ∷ stop (pos 9) ∷ [])
        (new_timer floats hits [])).1
    ≤ 1
reported_once_example =
    (reported_once floats hits [] (start (pos 1) (pos 5) ∷ stop (pos 7) ∷ stop (pos 9) ∷ []) tt).1
