-- ===== src/ResponseBuffer/Bounds.antt =====
-- What a write leaves in the buffer of libclmuv/http_response_buffer.c.
use clm.Base.{
  ℕ, ◌+◌, ◌-◌, ◌*◌, ◌/◌, ◌≤◌, ◌<◌, ◌≡◌, refl, inl, inr, Bytes, Bool, true, false, not, ◌&&◌, List,
  [], ◌∷◌, ◌++◌, length, length-append, arith, if◌then◌else◌, ltb, ◌==◌, ==_iff, Bool-cases,
  if-cases, true-false, sym, subst, u64, u64_max, u64_mod,
}
use clm.Ratelimit.Credit.{div_bounds}
use clm.ResponseBuffer.{
  accepted, overflow, too_large, no_memory, refused_with, ResponseBuffer, Written, grow,
  retain_bytes, write_real, buffer_write, Chunk, write_all,
}

-- The lengths agree, the bytes kept are among those received, and those within the limit.
pub record IsBounded (buf : ResponseBuffer) : Type 0 where
  pub len_is : buf.len ≡ length buf.data_bytes
  pub room_for_nul : buf.len < u64_max
  pub within : buf.received ≤ buf.limit
  pub limit_word : buf.limit < u64_mod

abbrev pub now_held : ResponseBuffer → Bytes → Bool → Bytes
now_held buf contents true = buf.data_bytes ++ contents
now_held buf contents false = buf.data_bytes

-- The buffer once `contents` are taken: what is kept of them stands behind what there was.
abbrev pub holding : ResponseBuffer → Bytes → Bool → ResponseBuffer
holding buf contents retain = record {
  data_bytes = now_held buf contents retain;
  len = length (now_held buf contents retain);
  received = buf.received + length contents;
  limit = buf.limit;
}

-- What a write does, over sums that do not wrap.
pub data Outcome (buf : ResponseBuffer) (contents : Bytes) (retain has_memory : Bool) (w : Written)
    : Type 0 where
  taken :
      buf.received + length contents ≤ buf.limit
      → (retain ≡ true → has_memory ≡ true)
      → (retain ≡ true → buf.len + length contents < u64_max)
      → w ≡ (record {
        result = accepted;
        buf = holding buf contents retain;
        written = length contents;
      })
      → Outcome buf contents retain has_memory w
  over_limit :
      buf.limit < buf.received + length contents
      → (u64_max < buf.received + length contents → w ≡ refused_with overflow buf)
      → (buf.received + length contents ≤ u64_max → w ≡ refused_with too_large buf)
      → Outcome buf contents retain has_memory w
  no_room :
      retain ≡ true
      → u64_max ≤ buf.len + length contents
      → w ≡ refused_with overflow buf
      → Outcome buf contents retain has_memory w
  starved :
      retain ≡ true
      → has_memory ≡ false
      → w ≡ refused_with no_memory buf
      → Outcome buf contents retain has_memory w

dropped-holding :
    (buf : ResponseBuffer) (contents : Bytes)
    → IsBounded buf
    → holding buf contents false ≡ (record buf { received = buf.received + length contents })
dropped-holding buf contents b = rw (sym b.len_is) refl

kept-holding :
    (buf : ResponseBuffer) (contents : Bytes)
    → IsBounded buf
    → holding buf contents true ≡ (record buf {
      data_bytes = buf.data_bytes ++ contents;
      len = buf.len + length contents;
      received = buf.received + length contents;
    })
kept-holding buf contents b = rw (length-append buf.data_bytes contents, sym b.len_is) refl

grow-Outcome :
    (buf : ResponseBuffer) (contents : Bytes) (has_memory : Bool)
    → IsBounded buf
    → buf.received + length contents ≤ buf.limit
    → buf.len + length contents < u64_max
    → Outcome buf contents true has_memory (grow buf contents (length contents) has_memory)
unfolding grow
grow-Outcome buf contents false b l r = starved refl refl refl
grow-Outcome buf contents true b l r =
    let longer : u64 (buf.len + length contents) ≡ buf.len + length contents = omega (arith, r) in
    let more : u64 (buf.received + length contents) ≡ buf.received + length contents =
      omega (arith, l, b.limit_word) in
    taken l (λ t. refl) (λ t. r) (rw (longer, more, kept-holding buf contents b) refl)

retain_bytes-Outcome :
    (buf : ResponseBuffer) (contents : Bytes) (has_memory : Bool)
    → IsBounded buf
    → buf.received + length contents ≤ buf.limit
    → Outcome buf contents true has_memory (retain_bytes buf contents (length contents) has_memory)
unfolding retain_bytes
retain_bytes-Outcome buf contents has_memory b l =
    if-cases (Outcome buf contents true has_memory) (ltb (u64_max - buf.len) (length contents))
      (λ o. no_room refl (ground arith) refl)
      (λ o.
        let sum : buf.len + length contents ≤ u64_max = ground (arith, b.room_for_nul) in
        let longer : u64 (buf.len + length contents) ≡ buf.len + length contents =
          omega (arith, sum) in
        if-cases (Outcome buf contents true has_memory) (u64 (buf.len + length contents) == u64_max)
          (λ e. no_room refl (ground (arith, longer)) refl)
          (λ e. grow-Outcome buf contents has_memory b l (ground (arith, longer, sum))))

write_real-Outcome :
    (buf : ResponseBuffer) (contents : Bytes) (retain has_memory : Bool)
    → IsBounded buf
    → Outcome buf contents retain has_memory
        (write_real buf contents (length contents) retain has_memory)
unfolding write_real
write_real-Outcome buf contents retain has_memory b =
    if-cases (Outcome buf contents retain has_memory)
      (ltb (u64_max - buf.received) (length contents))
      (λ o.
        let large : u64_max < buf.received + length contents =
          ground (arith, b.within, b.limit_word) in
        over_limit (omega (arith, large, b.limit_word)) (λ g. refl)
          (λ s. absurd (omega (arith, large, s))))
      (λ o.
        let fits : buf.received + length contents ≤ u64_max =
          ground (arith, b.within, b.limit_word) in
        let sum : u64 (buf.received + length contents) ≡ buf.received + length contents =
          omega (arith, fits) in
        if-cases (Outcome buf contents retain has_memory)
          (ltb buf.limit (u64 (buf.received + length contents)))
          (λ g. over_limit (ground (arith, sum)) (λ x. absurd (omega (arith, fits, x))) (λ x. refl))
          (λ g. kept retain (ground (arith, sum)) sum))
  where
    kept :
        (r : Bool)
        → buf.received + length contents ≤ buf.limit
        → u64 (buf.received + length contents) ≡ buf.received + length contents
        → Outcome buf contents r has_memory (
            if not r
            then record {
              result = accepted;
              buf = record buf { received = u64 (buf.received + length contents) };
              written = length contents;
            }
            else retain_bytes buf contents (length contents) has_memory)
    kept false l sum =
        taken l (λ t. absurd (true-false (sym t))) (λ t. absurd (true-false (sym t)))
          (rw (sum, dropped-holding buf contents b) refl)
    kept true l sum = retain_bytes-Outcome buf contents has_memory b l

product_fits :
    (size nmemb : ℕ)
    → (not (size == 0) && ltb (u64_max / size) nmemb) ≡ false
    → size * nmemb ≤ u64_max
product_fits size nmemb h = elim (Bool-cases (size == 0)) [
  | inl z ↦ rw ((==_iff size 0).0 z) (omega arith)
  | inr nz ↦
      let some_size : 0 < size = ground arith in
      let few : nmemb ≤ u64_max / size = ground arith in
      grind (arith, div_bounds u64_max size some_size)
]

-- A product that does not fit.
product_over :
    (size nmemb : ℕ)
    → (not (size == 0) && ltb (u64_max / size) nmemb) ≡ true
    → u64_max < size * nmemb
product_over size nmemb h =
    let some_size : 0 < size = ground arith in
    let many : u64_max / size < nmemb = ground arith in
    grind (arith, div_bounds u64_max size some_size)

-- A write of `size * nmemb` bytes to a buffer within its limit takes all of them where those received stay
-- within the limit and, if they are kept, there is memory and room for the NUL: what is kept then stands
-- behind what there was, and `len` is its length. Else it changes nothing and says why: an overflow or
-- too large past the limit, an overflow without room, or no memory. No sum or product wraps.
pub buffer_write-Outcome :
    (buf : ResponseBuffer) (contents : Bytes) (size nmemb : ℕ) (retain has_memory : Bool)
    → IsBounded buf
    → length contents ≡ size * nmemb
    → Outcome buf contents retain has_memory
        (buffer_write buf contents size nmemb retain has_memory)
unfolding buffer_write
buffer_write-Outcome buf contents size nmemb retain has_memory b l =
    if-cases (Outcome buf contents retain has_memory)
      (not (size == 0) && ltb (u64_max / size) nmemb)
      (λ o.
        let large = product_over size nmemb o in
        over_limit (omega (arith, large, l, b.limit_word)) (λ g. refl)
          (λ s. absurd (omega (arith, large, l, s))))
      (λ o.
        let small = product_fits size nmemb o in
        let real : u64 (size * nmemb) ≡ length contents = omega (arith, l, small) in
        subst
          (λ n.
            Outcome buf contents retain has_memory (write_real buf contents n retain has_memory))
          (sym real) (write_real-Outcome buf contents retain has_memory b))

write_real-IsBounded :
    (buf : ResponseBuffer) (contents : Bytes) (retain has_memory : Bool)
    → IsBounded buf
    → IsBounded (write_real buf contents (length contents) retain has_memory).buf
unfolding write_real retain_bytes grow
write_real-IsBounded buf contents retain has_memory b =
    ground (arith, b, length-append buf.data_bytes contents)

buffer_write-IsBounded :
    (buf : ResponseBuffer) (contents : Bytes) (size nmemb : ℕ) (retain has_memory : Bool)
    → IsBounded buf
    → length contents ≡ size * nmemb
    → IsBounded (buffer_write buf contents size nmemb retain has_memory).buf
unfolding buffer_write
buffer_write-IsBounded buf contents size nmemb retain has_memory b l =
    elim (Bool-cases (not (size == 0) && ltb (u64_max / size) nmemb)) [
      | inl over ↦ rw over b
      | inr fits ↦
          let small = product_fits size nmemb fits in
          let real : u64 (size * nmemb) ≡ length contents = omega (arith, l, small) in
          rw (fits, real) (write_real-IsBounded buf contents retain has_memory b)
    ]

abbrev pub AllWhole : List Chunk → Type 0
AllWhole [] = Unit
AllWhole (c ∷ cs) = (length c.contents ≡ c.size * c.nmemb) × AllWhole cs

-- Over any chunks, each with the bytes that its sizes say, the buffer keeps within its limit, its length
-- is that of its bytes, and there is room for the NUL behind them.
pub write_all-IsBounded :
    (buf : ResponseBuffer) (cs : List Chunk)
    → AllWhole cs
    → IsBounded buf
    → IsBounded (write_all buf cs)
unfolding write_all
write_all-IsBounded buf [] w b = b
write_all-IsBounded buf (c ∷ cs) w b =
    write_all-IsBounded (buffer_write buf c.contents c.size c.nmemb c.retain c.has_memory).buf cs
      w.1 (buffer_write-IsBounded buf c.contents c.size c.nmemb c.retain c.has_memory b w.0)
