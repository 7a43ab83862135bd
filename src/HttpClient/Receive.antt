-- ===== src/HttpClient/Receive.antt =====
-- App/src/teep_http_client.cpp: what the chunks of a response leave in the caller's buffer.
use taws.Base.{
  ℕ, zero, suc, ◌+◌, ◌-◌, ◌≤◌, ◌≡◌, inl, inr, refl, sym, ap, ◌∙◌, true, List, [], ◌∷◌, ◌++◌, ltb,
  ◌==◌, if◌then◌else◌, length, take, take_all, min, Bytes, arith, length-take, length-append,
  Bool-cases,
}
use taws.HttpClient.{RecvContext, write_callback, receive, CurlCalls, teep_send_http_post}

-- The chunks in one piece.
abbrev pub body : List Bytes → Bytes
body [] = []
body (chunk ∷ chunks) = chunk ++ body chunks

++_assoc : (xs ys zs : Bytes) → ((xs ++ ys) ++ zs) ≡ (xs ++ (ys ++ zs))
++_assoc [] ys zs = refl
++_assoc (x ∷ xs) ys zs = ap (◌∷◌ x) (++_assoc xs ys zs)

++_nil : (xs : Bytes) → (xs ++ []) ≡ xs
++_nil [] = refl
++_nil (x ∷ xs) = ap (◌∷◌ x) (++_nil xs)

take_split : (k : ℕ) (xs ys : Bytes) → take k (xs ++ ys) ≡ (take k xs ++ take (k - length xs) ys)
take_split zero xs ys = let z : 0 ≡ 0 - length xs = omega arith in ap (λ n. take n ys) z
take_split (suc k) [] ys = let z : suc k ≡ suc k - 0 = omega arith in ap (λ n. take n ys) z
take_split (suc k) (x ∷ xs) ys =
    let z : k - length xs ≡ suc k - suc (length xs) = omega arith in
    ap (◌∷◌ x) (take_split k xs ys) ∙ ap (λ n. x ∷ (take k xs ++ take n ys)) z

room_left : (n cap : ℕ) → n ≤ cap → (if ltb n cap then cap - n else 0) ≡ cap - n
room_left n cap h = ground arith

take_copied :
    (k : ℕ) (xs : Bytes) → take (if ltb (length xs) k then length xs else k) xs ≡ take k xs
take_copied k xs = elim (Bool-cases (ltb (length xs) k)) [
  | inr part ↦ rw part refl
  | inl whole ↦
      rw whole (take_all (length xs) xs (omega arith) ∙ sym (take_all k xs (ground arith)))
]

append_copied :
    (n : ℕ) (xs ys : Bytes) → (if ltb 0 n then xs ++ take n ys else xs) ≡ (xs ++ take n ys)
append_copied n xs ys = elim (Bool-cases (ltb 0 n)) [
  | inl some_bytes ↦ rw some_bytes refl
  | inr nothing ↦
      let z : n ≡ 0 = ground (arith, nothing) in
      rw nothing (sym (++_nil xs) ∙ ap (λ m. xs ++ take m ys) (sym z))
]

-- A chunk adds as much of it as there is room for.
out-write_callback :
    (ctx : RecvContext) (chunk : Bytes)
    → length ctx.out ≤ ctx.allocated_len
    → (write_callback ctx chunk).0.out
      ≡ (ctx.out ++ take (ctx.allocated_len - length ctx.out) chunk)
unfolding write_callback
out-write_callback ctx chunk h =
    append_copied _ ctx.out chunk
    ∙ ap (λ bytes. ctx.out ++ bytes)
        (take_copied _ chunk
          ∙ ap (λ n. take n chunk) (room_left (length ctx.out) ctx.allocated_len h))

all_taken :
    (ctx : RecvContext) (chunk : Bytes) → ((write_callback ctx chunk).1 == length chunk) ≡ true
unfolding write_callback
all_taken ctx chunk = ground arith

same_capacity :
    (ctx : RecvContext) (chunk : Bytes)
    → (write_callback ctx chunk).0.allocated_len ≡ ctx.allocated_len
unfolding write_callback
same_capacity ctx chunk = refl

take_nil : (k : ℕ) → take {A = ℕ} k [] ≡ []
take_nil zero = refl
take_nil (suc k) = refl

-- The lengths behind a chunk.
length-out :
    (ctx : RecvContext) (chunk : Bytes)
    → length ctx.out ≤ ctx.allocated_len
    → length (write_callback ctx chunk).0.out
      ≡ length ctx.out + min (ctx.allocated_len - length ctx.out) (length chunk)
length-out ctx chunk h =
    ap length (out-write_callback ctx chunk h)
    ∙ length-append ctx.out (take (ctx.allocated_len - length ctx.out) chunk)
    ∙ ap (◌+◌ (length ctx.out)) (length-take (ctx.allocated_len - length ctx.out) chunk)

-- The buffer holds the response as far as it fits.
pub out-receive :
    (ctx : RecvContext) (chunks : List Bytes)
    → length ctx.out ≤ ctx.allocated_len
    → (receive ctx chunks).out
      ≡ (ctx.out ++ take (ctx.allocated_len - length ctx.out) (body chunks))
unfolding receive
out-receive ctx [] h =
    sym (++_nil ctx.out)
    ∙ ap (λ bytes. ctx.out ++ bytes) (sym (take_nil (ctx.allocated_len - length ctx.out)))
out-receive ctx (chunk ∷ chunks) h =
    let k = ctx.allocated_len - length ctx.out in
    let ctx' = (write_callback ctx chunk).0 in
    let len = length-out ctx chunk h in
    let cap = same_capacity ctx chunk in
    let fits : length ctx'.out ≤ ctx'.allocated_len = omega (arith, len, cap, h) in
    let room : ctx'.allocated_len - length ctx'.out ≡ k - length chunk =
      omega (arith, len, cap, h) in
    rw (all_taken ctx chunk) (
      out-receive ctx' chunks fits
      ∙ ap (λ bytes. bytes ++ take (ctx'.allocated_len - length ctx'.out) (body chunks))
          (out-write_callback ctx chunk h)
      ∙ ap (λ n. (ctx.out ++ take k chunk) ++ take n (body chunks)) room
      ∙ ++_assoc ctx.out (take k chunk) (take (k - length chunk) (body chunks))
      ∙ ap (λ bytes. ctx.out ++ bytes) (sym (take_split k chunk (body chunks))))

-- Where libcurl is there, the caller's buffer has the start of the response that fits in it.
pub teep_send_http_post-body :
    (e : CurlCalls) (capacity : ℕ)
    → e.easy_init ≡ true
    → ((teep_send_http_post e capacity).1 ≡ take capacity (body e.chunks))
      × (length (teep_send_http_post e capacity).1 ≤ capacity)
unfolding teep_send_http_post
teep_send_http_post-body e capacity ready = rw ready (got, omega (arith, len))
  where
    got :
        (receive (record { out = []; allocated_len = capacity }) e.chunks).out
        ≡ take capacity (body e.chunks)
    got =
        out-receive (record { out = []; allocated_len = capacity }) e.chunks (omega arith)
        ∙ (let z : capacity - 0 ≡ capacity = omega arith in ap (λ n. take n (body e.chunks)) z)

    len :
        length (receive (record { out = []; allocated_len = capacity }) e.chunks).out
        ≡ min capacity (length (body e.chunks))
    len = ap length got ∙ length-take capacity (body e.chunks)
