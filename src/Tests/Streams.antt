-- ===== src/Tests/Streams.antt =====
-- Runs of the SSE parser of `src/zhongzhuan/proxy/protocol/sse_parser.py`.
use zhongzhuan.Base.{[], ℕ, ◌≡◌, refl, map, true, false, some, List, ◌∷◌, ◌++◌, arith}
use zhongzhuan.Base.Text.{codes}
use zhongzhuan.Sse.{Bytes, Codec, Config, Parser, feed_all, flush, parse, new_parser, empty_state}
use zhongzhuan.Sse.Independence.{concat, feed_all-flush-parse}
use zhongzhuan.Sse.Bounds.{IsValid, feed_all-IsValid}
use zhongzhuan.Sse.RoundTrip.{DataLine, encode, ready, data_frame, feed_all-encode}

decode_cons : (a : ℕ) (l t : List ℕ) → some l ≡ some t → some (a ∷ l) ≡ some (a ∷ t)
decode_cons a l t e = ground (arith, e)

-- A decoder for ASCII.
abbrev ascii : Codec
ascii = record {
  decode = λ l. some l;
  decode_replace = λ l. l;
  strip = λ t. t;
  is_json = λ t. true;
  decode_ascii = λ a l t small e. decode_cons a l t e;
}

abbrev config : Config
config = record {
  max_event_bytes = 40;
  validate_json = false;
  json_exempt = [];
  emit_dataless = false;
}

abbrev chunks : List Bytes
chunks = codes "data: a\r" ∷ codes "\nda" ∷ codes "ta: b\n\ndata: c" ∷ []

feed_all-flush-parse_example :
    let (frames, p) = feed_all ascii chunks (new_parser config) in
    frames ++ (flush ascii p).0 ≡ parse ascii config (concat chunks)
feed_all-flush-parse_example = feed_all-flush-parse ascii config chunks (ground arith)

abbrev parser : Parser
parser = record { config = config; buf = []; bom_done = false; state = empty_state }

feed_all-IsValid_example : IsValid (feed_all ascii chunks parser).1
feed_all-IsValid_example = feed_all-IsValid ascii chunks parser (record {
  bounded = record { raw_small = omega arith; counted = refl };
  buf_small = omega arith;
})

abbrev events : List (List DataLine)
events = ((codes "a", codes "a") ∷ []) ∷ []

feed_all-encode_example :
    feed_all ascii (map encode events) (ready parser) ≡ (map data_frame events, ready parser)
feed_all-encode_example = feed_all-encode ascii parser events refl (
  (
    (λ h. ground (arith, h)),
    (((((λ h. ground (arith, h)), (λ h. ground (arith, h))), tt), refl), tt),
    omega arith,
  ),
  tt,
)
