-- ===== src/Helpers.antt =====
-- The two function templates of util/helpers.hh that serialize and parse an object.
pub mod Reparse
use tiny_tcp_over_tun.Common.{List, Bool, true, false, not, Option, none, some}
use tiny_tcp_over_tun.Ref.{Ref}
use tiny_tcp_over_tun.Common.{ℕ}
use tiny_tcp_over_tun.Parser.{Parser, Parse}
use tiny_tcp_over_tun.Parser.Buffers.{make}
use tiny_tcp_over_tun.Parser.Serializer.{Serializer, new, finish}

-- `serialize( obj )`, where `write` is `obj.serialize`
unfoldable pub serialize : (Serializer → Serializer) → List (Ref (List ℕ))
serialize write = finish (write new)

-- `Parser p { buffers }`
unfoldable pub new_parser : List (Ref (List ℕ)) → Option Parser
new_parser buffers = elim (make buffers) [
  | none ↦ none
  | some input ↦ some (record { input = input; error = false })
]

-- `parse( obj, buffers )`, where `read` is `obj.parse`: the object and whether there was no error
unfoldable pub parse : {A : Type 0} → Parse A → List (Ref (List ℕ)) → Option (A × Bool)
unfolding new_parser
parse read buffers = elim (new_parser buffers) [
  | none ↦ none
  | some p ↦ elim (read p) [ none ↦ none | some (obj, q) ↦ some (obj, not q.error) ]
]
