-- ===== src/Endpoint.antt =====
-- "host:port", as src/client/client.cpp and apps/spl_server.cpp take it apart.
pub mod Announced
use distributed_replicated_c.Prelude.{
  ℕ, ℤ, pos, negsuc, Bool, true, ◌||◌, ltb, if◌then◌else◌, Option, none, some, String,
}
use Prim.Native.String.{◌++◌}
use distributed_replicated_c.Result.{Result, ok, throws, runtime_error, ◌>>=◌}
use distributed_replicated_c.Text.{split_at, stoi, to_string}

-- substr(0, delim_idx) and substr(delim_idx + 1). Without a ':' the index is npos, and npos + 1 is 0:
-- both are the whole text.
unfoldable pub split_endpoint : String → String × String
split_endpoint endpoint = elim (split_at 58 endpoint) [
  | none ↦ (endpoint, endpoint)
  | some parts ↦ parts
]

-- 1 > srv_port || srv_port > 65535, and the cast to uint16_t.
unfoldable pub checked_port : String → ℤ → Result ℕ
checked_port host (negsuc n) =
    throws
      (runtime_error ("invalid port number for host \"" ++ host ++ "\": " ++ to_string (negsuc n)))
checked_port host (pos port) =
    if ltb port 1 || ltb 65535 port
    then throws (
        runtime_error ("invalid port number for host \"" ++ host ++ "\": " ++ to_string (pos port)))
    else ok port

unfoldable pub parse_endpoint : String → Result (String × ℕ)
parse_endpoint endpoint =
    let (host, port_text) = split_endpoint endpoint in
    stoi port_text >>= λ port. checked_port host port >>= λ checked. ok (host, checked)

-- cfg.addr_ + ":" + std::to_string(port)
abbrev pub endpoint_of : String → ℕ → String
endpoint_of host port = host ++ (":" ++ to_string (pos port))
