-- ===== src/ResultCache/Hits.antt =====
-- What a run through the cache leaves at the output.
use Prim.Native.String.{String}
