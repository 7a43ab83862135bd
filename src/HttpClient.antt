-- ===== src/HttpClient.antt =====
-- App/src/teep_http_client.cpp: the POST to the TAM and the callback that collects the response.
pub mod Receive
mod Tests
use taws.Base.{
  ℕ, ◌-◌, Bool, true, false, not, ◌||◌, Option, none, some, List, [], ◌∷◌, ◌++◌, ltb, ◌==◌,
  if◌then◌else◌, length, take, Bytes, ℤ,
}

-- `teep_http_recv_context_t`; `out` is what is written so far.
pub record RecvContext : Type 0 where
  pub out : Bytes
  pub allocated_len : ℕ

-- `write_callback`, for the `size * nitems` bytes of a chunk.
unfoldable pub write_callback : RecvContext → Bytes → RecvContext × ℕ
write_callback ctx chunk =
    let remain_size =
      if ltb (length ctx.out) ctx.allocated_len then ctx.allocated_len - length ctx.out else 0 in
    let copy_size = if ltb (length chunk) remain_size then length chunk else remain_size in
    (
      record ctx { out = if ltb 0 copy_size then ctx.out ++ take copy_size chunk else ctx.out },
      length chunk,
    )

-- libcurl calls back for each chunk, as long as the callback takes all of it.
unfoldable pub receive : RecvContext → List Bytes → RecvContext
receive ctx [] = ctx
receive ctx (chunk ∷ chunks) =
    let (ctx', taken) = write_callback ctx chunk in
    let rest = receive ctx' chunks in if taken == length chunk then rest else ctx'

-- `TEEP_ERR_UNEXPECTED_ERROR`, 0, 1 and 2.
pub data HttpResult : Type 0 where
  http_ok curl_failed bad_status unexpected_error : HttpResult

-- libcurl's part of a POST: `response_code` is `none` where `curl_easy_getinfo` fails.
pub record CurlCalls : Type 0 where
  pub easy_init : Bool
  pub chunks : List Bytes
  pub perform : Bool
  pub response_code : Option ℤ

unfoldable pub status_result : Option ℤ → HttpResult
status_result none = bad_status
status_result (some (ℤ.negsuc n)) = bad_status
status_result (some (ℤ.pos n)) =
    if n == 204 then http_ok else if not (n == 200) then bad_status else http_ok

-- `teep_send_http_post`: the result, and what is in the caller's buffer of that capacity.
unfoldable pub teep_send_http_post : CurlCalls → ℕ → HttpResult × Bytes
teep_send_http_post e capacity = if not e.easy_init then (unexpected_error, []) else (
  if not e.perform then curl_failed else status_result e.response_code,
  (receive (record { out = []; allocated_len = capacity }) e.chunks).out,
)
