-- ===== src/Spans/Tests.antt =====
-- The theorems on trace information at concrete inputs.
use baseplate_py.Prelude.{◌≡◌, refl, none, some, true, ok, arith}
use baseplate_py.Prelude.Int.{pos}
use baseplate_py.Spans.{TraceInfo, flag, from_upstream}
use baseplate_py.Spans.Lineage.{from_upstream_exact}

abbrev upstream : TraceInfo
upstream = record {
  trace_id = 1;
  parent_id = some 2;
  span_id = 3;
  sampled = some true;
  flags = none;
}

from_upstream_exact_example :
    from_upstream (some (pos 1)) (some (pos 2)) (some (pos 3)) (flag true) none ≡ ok upstream
from_upstream_exact_example =
    (from_upstream_exact (some (pos 1)) (some (pos 2)) (some (pos 3)) (flag true) none upstream).1 (
      record {
        trace = omega arith;
        span = omega arith;
        parent = (2, refl, omega arith);
        flags = tt;
      },
      refl,
      refl,
      refl,
      refl,
      refl,
    )
