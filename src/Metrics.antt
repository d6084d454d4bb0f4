-- ===== src/Metrics.antt =====
-- baseplate/lib/metrics.py: the metrics and their lines in the StatsD protocol, the transports and
-- the batch. The floats are a parameter, with Python's operations and formats as the code uses
-- them, and so are the socket and the `str` of a tag's value.
pub mod Totals
pub mod Flushes
pub mod Timer
mod Tests
use baseplate_py.Prelude.{
  ℕ, zero, suc, Bool, true, false, not, ◌&&◌, ◌≡◌, refl, ◌↔◌, Option, none, some, List, [], ◌∷◌,
  ◌++◌, length, ltb, leb, ◌==◌, if◌then◌else◌, Result, ok, err, ◌>>=◌, Bytes, arith,
}

pub record Floats (F : Type 0) : Type 0 where
  pub float_zero : F
  pub float_one : F
  pub thousand : F
  pub add : F → F → F
  pub minus : F → F → F
  pub times : F → F → F
  pub negate : F → F
  pub less : F → F → Bool
  -- `==`
  pub same : F → F → Bool
  -- the format `:g`
  pub format_g : F → Bytes

-- the equality of two byte strings
unfoldable pub bytes_eq : Bytes → Bytes → Bool
bytes_eq [] [] = true
bytes_eq (c ∷ cs) (d ∷ ds) = (c == d) && bytes_eq cs ds
bytes_eq _ _ = false

pub bytes_eq_refl : (s : Bytes) → bytes_eq s s ≡ true
unfolding bytes_eq
bytes_eq_refl [] = refl
bytes_eq_refl (c ∷ cs) = ground (arith, bytes_eq_refl cs)

pub bytes_eq→eq : (s t : Bytes) → bytes_eq s t ≡ true → s ≡ t
unfolding bytes_eq
bytes_eq→eq [] [] e = refl
bytes_eq→eq [] (d ∷ ds) e = cc
bytes_eq→eq (c ∷ cs) [] e = cc
bytes_eq→eq (c ∷ cs) (d ∷ ds) e = ground (arith, bytes_eq→eq cs ds)

pub data MetricError : Type 0 where
  assertion_error unicode_error : MetricError

-- `encode("ascii")`
unfoldable pub encode_ascii : Bytes → Result MetricError Bytes
encode_ascii [] = ok []
encode_ascii (c ∷ cs) =
    encode_ascii cs >>= λ rest. if ltb c 128 then ok (c ∷ rest) else err unicode_error

unfoldable pub lstrip_dots : Bytes → Bytes
lstrip_dots [] = []
lstrip_dots (c ∷ cs) = let rest = lstrip_dots cs in if c == 46 then rest else c ∷ cs

unfoldable pub rstrip_dots : Bytes → Bytes
rstrip_dots [] = []
rstrip_dots (c ∷ cs) = elim (rstrip_dots cs) [
  | [] ↦ if c == 46 then [] else c ∷ []
  | d ∷ ds ↦ c ∷ d ∷ ds
]

-- `sep.join(parts)`
unfoldable pub join : Bytes → List Bytes → Bytes
join sep [] = []
join sep (s ∷ []) = s
join sep (s ∷ t ∷ rest) = s ++ (sep ++ join sep (t ∷ rest))

unfoldable pub strip_nonempty : List Bytes → List Bytes
unfolding lstrip_dots rstrip_dots
strip_nonempty [] = []
strip_nonempty ([] ∷ nodes) = strip_nonempty nodes
strip_nonempty ((c ∷ cs) ∷ nodes) = rstrip_dots (lstrip_dots (c ∷ cs)) ∷ strip_nonempty nodes

-- `_metric_join`
unfoldable pub metric_join : List Bytes → Bytes
unfolding join strip_nonempty
metric_join nodes = join (46 ∷ []) (strip_nonempty nodes)

-- Tags, in the order of the dict; the values are their `str`.
abbrev pub Tags : Type 0
Tags = List (Bytes × Bytes)

unfoldable pub tag_parts : Tags → List Bytes
tag_parts [] = []
tag_parts ((k, v) ∷ tags) = (k ++ (61 ∷ v)) ∷ tag_parts tags

-- `_format_tags`, and what it adds to a name
unfoldable pub format_tags : Tags → Bytes
unfolding tag_parts join
format_tags [] = []
format_tags (t ∷ tags) = 44 ∷ join (44 ∷ []) (tag_parts (t ∷ tags))

module _ {F : Type 0} (floats : Floats F) where
  -- a line, and the sample rate after it
  abbrev pub with_rate : F → Bytes → Bytes
  with_rate rate serialized =
      if floats.less rate floats.float_one
      then serialized ++ (124 ∷ 64 ∷ floats.format_g rate)
      else serialized

  abbrev pub line : Bytes → Tags → F → Bytes → Bytes
  line name tags value kind = name ++ (format_tags tags ++ (58 ∷ (floats.format_g value ++ kind)))

  -- `Timer.send`
  unfoldable pub timer_line : Bytes → Tags → F → F → Bytes
  timer_line name tags elapsed rate =
      with_rate rate (line name tags (floats.times elapsed floats.thousand) (124 ∷ 109 ∷ 115 ∷ []))

  -- `Counter.send`
  unfoldable pub counter_line : Bytes → Tags → F → F → Bytes
  counter_line name tags delta rate = with_rate rate (line name tags delta (124 ∷ 99 ∷ []))

  -- `Histogram.add_sample`
  unfoldable pub histogram_line : Bytes → Tags → F → Bytes
  histogram_line name tags value = line name tags value (124 ∷ 104 ∷ [])

  -- `Gauge.replace`
  unfoldable pub gauge_line : Bytes → Tags → F → Result MetricError Bytes
  gauge_line name tags value =
      if floats.less value floats.float_zero
      then err assertion_error
      else ok (line name tags value (124 ∷ 103 ∷ []))

  -- `BaseClient.timer`, `counter`, `gauge`, `histogram`: the metric's name
  unfoldable pub metric_name : Bytes → Bytes → Result MetricError Bytes
  unfolding encode_ascii metric_join
  metric_name namespace name = encode_ascii name >>= λ s. ok (metric_join (namespace ∷ s ∷ []))

  -- a BatchCounter
  pub record BatchCounter : Type 0 where
    pub name : Bytes
    pub tags : Tags
    -- sample rates and totals, in the order of first use
    pub packets : List (F × F)

  unfoldable pub add_packet : F → F → List (F × F) → List (F × F)
  add_packet delta rate [] = (rate, floats.add floats.float_zero delta) ∷ []
  add_packet delta rate ((r, total) ∷ packets) =
      if floats.same r rate
      then (r, floats.add total delta) ∷ packets
      else (r, total) ∷ add_packet delta rate packets

  -- a Batch: the buffer of its transport, and its counters in the order of first use
  pub record Batch : Type 0 where
    pub namespace : Bytes
    pub buffer : List Bytes
    pub counters : List BatchCounter

  -- the lookup of `Batch.counter`, and `increment` on what it returns
  unfoldable pub bump : Bytes → Tags → F → F → List BatchCounter → List BatchCounter
  bump n tags delta rate [] =
      record { name = n; tags = tags; packets = add_packet delta rate [] } ∷ []
  bump n tags delta rate (c ∷ counters) =
      if bytes_eq c.name n
      then record c { packets = add_packet delta rate c.packets } ∷ counters
      else c ∷ bump n tags delta rate counters

  -- What a request's code does with its batch: `counter(name, tags).increment(delta, rate)`, with
  -- `decrement` as its negative, and the lines of the other metrics, which are serialized at once.
  pub data Op : Type 0 where
    increment decrement : Bytes → Tags → F → F → Op
    time : Bytes → Tags → F → F → Op
    replace : Bytes → Tags → F → Op
    add_sample : Bytes → Tags → F → Op

  abbrev pub append_line : Batch → Bytes → Batch
  append_line b s = record b { buffer = b.buffer ++ (s ∷ []) }

  unfoldable pub count_in : Batch → Bytes → Tags → F → F → Result MetricError Batch
  count_in b n tags delta rate = metric_name b.namespace n >>= λ full.
      ok (record b { counters = bump full tags delta rate b.counters })

  unfoldable pub apply : Op → Batch → Result MetricError Batch
  unfolding count_in
  apply (increment n tags delta rate) b = count_in b n tags delta rate
  apply (decrement n tags delta rate) b = count_in b n tags (floats.negate delta) rate
  apply (time n tags elapsed rate) b =
      metric_name b.namespace n >>= λ full. ok (append_line b (timer_line full tags elapsed rate))
  apply (replace n tags value) b =
      metric_name b.namespace n >>= λ full. gauge_line full tags value >>= λ s. ok (append_line b s)
  apply (add_sample n tags value) b =
      metric_name b.namespace n >>= λ full. ok (append_line b (histogram_line full tags value))

  -- `BatchCounter.flush`: the lines that it sends
  unfoldable pub packet_lines : Bytes → Tags → List (F × F) → List Bytes
  packet_lines n tags [] = []
  packet_lines n tags ((rate, delta) ∷ packets) =
      counter_line n tags delta rate ∷ packet_lines n tags packets

  unfoldable pub counter_lines : List BatchCounter → List Bytes
  counter_lines [] = []
  counter_lines (c ∷ counters) = packet_lines c.name c.tags c.packets ++ counter_lines counters

pub data TransportError : Type 0 where
  message_too_big : ℕ → TransportError
  transport_error : TransportError

-- `sendall` on a socket: what it raises, with whether its errno is EMSGSIZE
pub record Socket (W : Type 0) : Type 0 where
  pub sendall : Bytes → W → Option Bool × W

module _ {W : Type 0} (socket : Socket W) where
  abbrev pub raised : ℕ → Option Bool → Option TransportError
  raised size none = none
  raised size (some true) = some (message_too_big size)
  raised size (some false) = some transport_error

  -- `RawTransport.send`
  unfoldable pub raw_send : Bytes → W → Option TransportError × W
  raw_send serialized w =
      let (error, w') = socket.sendall serialized w in (raised (length serialized) error, w')

  -- `BufferedTransport.flush`
  unfoldable pub flush_buffer : List Bytes → W → Option TransportError × W
  unfolding raw_send join
  flush_buffer [] w = (none, w)
  flush_buffer (s ∷ lines) w = raw_send (join (10 ∷ []) (s ∷ lines)) w

  module _ {F : Type 0} (floats : Floats F) where
    -- `Batch.flush`, with the warning that it logs
    unfoldable pub flush : Batch floats → W → Option TransportError × Batch floats × W
    unfolding counter_lines packet_lines flush_buffer
    flush b w =
        let (warning, w') = flush_buffer (b.buffer ++ counter_lines floats b.counters) w in
        (warning, record b { buffer = []; counters = [] }, w')
