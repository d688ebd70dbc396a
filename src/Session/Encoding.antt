-- ===== src/Session/Encoding.antt =====
-- The "key=value\n" format in which pkg/service/stream_handler.go sends headers and trailers.
use synurang.Common.{Bytes, Map, [], ◌∷◌, ◌++◌}

unfoldable pub encode_pairs : Map Bytes Bytes → Bytes
encode_pairs [] = []
encode_pairs ((k, v) ∷ m) = k ++ (b'=' ∷ (v ++ (10 ∷ encode_pairs m)))
