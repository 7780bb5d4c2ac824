-- ===== src/Utils/Checksum/Verify.antt =====
-- A checksum written into its field verifies.
use light_packet.Base.{
  ℕ, ◌+◌, ◌/◌, ◌%◌, ◌^◌, ◌<◌, ◌≡◌, ◌⊎◌, inl, refl, Bool, true, false, List, ◌∷◌, ◌++◌, arith,
  length, length-append, append_assoc, sym, if◌then◌else◌, ◌==◌, ◌&&◌, ltb, if-each, All-append,
  ltb→lt,
}
use light_packet.Base.Bytes.{IsBytes}
use light_packet.Base.Exceptions.{Exception, Result, ok, raise, ◌>>=◌, ok-eq, >>=-eq-ok}
use light_packet.Base.Int.{low_bits_16-lt}
use light_packet.Utils.Checksum.{
  ones_complement, ipv4_header_checksum, verify_ipv4_header, build_pseudo_header, one_byte,
  two_bytes, four_bytes, transport_checksum, verify_transport_checksum,
}
use light_packet.Utils.Checksum.Sums.{
  sum_words, sum_words-append, ones_complement_lem, carry_around-completed, carry_around-all_ones,
}

-- `with_field pre c post`: the bytes with the 16-bit value `c` between `pre` and `post`.
abbrev pub with_field : List ℕ → ℕ → List ℕ → List ℕ
with_field pre c post = pre ++ (c / 256) ∷ (c % 256) ∷ post

module _ (pre post : List ℕ) (even : length pre % 2 ≡ 0) (pre_bytes : IsBytes pre)
    (post_bytes : IsBytes post) where
  with_field-IsBytes : (c : ℕ) → c < 65536 → IsBytes (with_field pre c post)
  with_field-IsBytes c h =
      All-append (λ (n : ℕ). n < 256) pre _ pre_bytes (omega arith, (omega arith, post_bytes))

  sum_words-with_field :
      (c : ℕ) → sum_words (with_field pre c post) ≡ sum_words (with_field pre 0 post) + c
  sum_words-with_field c = omega (
    arith,
    sum_words-append pre ((c / 256) ∷ (c % 256) ∷ post) even,
    sum_words-append pre (0 ∷ 0 ∷ post) even,
    head c,
    head 0,
  )
    where
      head : (c : ℕ) → sum_words ((c / 256) ∷ (c % 256) ∷ post) ≡ c + sum_words post
      head c = unfold sum_words in omega arith

  -- With the complement of its sum in the field, the whole sums to all ones.
  completed :
      (c : ℕ)
      → ((c ≡ ones_complement (with_field pre 0 post))
          ⊎ ((ones_complement (with_field pre 0 post) ≡ 0) × (c ≡ 65535)))
      → ones_complement (with_field pre c post) ≡ 0
  completed c h =
      let zero_field =
        ones_complement_lem (with_field pre 0 post) (with_field-IsBytes 0 (omega arith)) in
      let fits : c < 65536 = omega (arith, zero_field, h) in
      let field = ones_complement_lem (with_field pre c post) (with_field-IsBytes c fits) in
      ground (
        arith,
        zero_field,
        field,
        sum_words-with_field c,
        carry_around-completed (sum_words (with_field pre 0 post)),
        carry_around-all_ones (sum_words (with_field pre 0 post)),
      )

  -- A header of bytes with its checksum in the field, at an even offset, verifies.
  pub verify_ipv4_header-checksum :
      verify_ipv4_header (with_field pre (ipv4_header_checksum (with_field pre 0 post)) post) ≡ true
  unfolding verify_ipv4_header ipv4_header_checksum
  verify_ipv4_header-checksum =
      let c = ones_complement (with_field pre 0 post) in ground (arith, completed c (inl refl))

length-with_field :
    (pre post : List ℕ) (c : ℕ) → length (with_field pre c post) ≡ length (with_field pre 0 post)
length-with_field pre post c =
    omega
      (arith, length-append pre ((c / 256) ∷ (c % 256) ∷ post), length-append pre (0 ∷ 0 ∷ post))

-- A pseudo-header is made of bytes, an even number of them.
data IsPseudoHeader : Result (List ℕ) → Type 0 where
  fails : {e : Exception} → IsPseudoHeader (raise e)
  made : {ps : List ℕ} → IsBytes ps → length ps % 2 ≡ 0 → IsPseudoHeader (ok ps)

checked-bind :
    (b : Bool) (x : List ℕ) (e : Exception) (f : List ℕ → Result (List ℕ))
    → (b ≡ true → IsPseudoHeader (f x))
    → IsPseudoHeader ((if b then ok x else raise e) >>= f)
checked-bind true x e f h = h refl
checked-bind false x e f h = fails

append-IsBytes : (xs ys : List ℕ) → IsBytes xs → IsBytes ys → IsBytes (xs ++ ys)
append-IsBytes = All-append (λ (n : ℕ). n < 256)

even_length :
    (n : ℕ) (src dst rest : List ℕ)
    → (length src == n && length dst == n) ≡ true
    → length rest % 2 ≡ 0
    → length (src ++ (dst ++ rest)) % 2 ≡ 0
even_length n src dst rest e h =
    ground (arith, length-append src (dst ++ rest), length-append dst rest)

build_pseudo_header-IsPseudoHeader :
    (src dst : List ℕ) (protocol len : ℕ)
    → IsBytes src
    → IsBytes dst
    → IsPseudoHeader (build_pseudo_header src dst protocol len)
unfolding build_pseudo_header one_byte two_bytes four_bytes
build_pseudo_header-IsPseudoHeader src dst protocol len bs bd =
    if-each IsPseudoHeader (length src == 4 && length dst == 4)
      (λ four. checked-bind (ltb protocol 256) _ _ _ λ fits_p.
        checked-bind (ltb len (2 ^ 16)) _ _ _ λ fits_l.
          made
            (append-IsBytes src _ bs (
              append-IsBytes dst _ bd (
                omega arith,
                (
                  ltb→lt protocol 256 fits_p,
                  (omega (arith, ltb→lt len (2 ^ 16) fits_l), (omega arith, tt)),
                ),
              )))
            (even_length 4 src dst _ four refl))
      (λ _.
        if-each IsPseudoHeader (length src == 16 && length dst == 16)
          (λ sixteen. checked-bind (ltb len (2 ^ 32)) _ _ _ λ fits_l.
            checked-bind (ltb protocol 256) _ _ _ λ fits_p.
              made
                (append-IsBytes src _ bs (
                  append-IsBytes dst _ bd (
                    omega (arith, ltb→lt len (2 ^ 32) fits_l),
                    (
                      omega arith,
                      (
                        omega arith,
                        (
                          omega arith,
                          (
                            omega arith,
                            (omega arith, (omega arith, (ltb→lt protocol 256 fits_p, tt))),
                          ),
                        ),
                      ),
                    ),
                  )))
                (even_length 16 src dst _ sixteen refl))
          (λ _. fails))

module _ (src dst : List ℕ) (protocol : ℕ) (pre post : List ℕ) (even : length pre % 2 ≡ 0)
    (src_bytes : IsBytes src) (dst_bytes : IsBytes dst) (pre_bytes : IsBytes pre)
    (post_bytes : IsBytes post) where
  -- What is sent in the field: the complement, or all ones in place of 0.
  sent_field :
      (ps : List ℕ) (c : ℕ)
      → IsBytes ps
      → length ps % 2 ≡ 0
      → (if ones_complement (ps ++ with_field pre 0 post) == 0
          then 0xFFFF
          else ones_complement (ps ++ with_field pre 0 post))
        ≡ c
      → ones_complement (ps ++ with_field pre c post) ≡ 0
  sent_field ps c b e h = rw (sym (append_assoc ps pre ((c / 256) ∷ (c % 256) ∷ post))) (
      completed (ps ++ pre) post (omega (arith, length-append ps pre))
        (append-IsBytes ps pre b pre_bytes) post_bytes c
        (rw (append_assoc ps pre (0 ∷ 0 ∷ post)) (chosen _ h)))
    where
      chosen : (x : ℕ) → (if x == 0 then 0xFFFF else x) ≡ c → (c ≡ x) ⊎ ((x ≡ 0) × (c ≡ 65535))
      chosen x h = ground arith

  -- A segment of bytes with its transport checksum in the field, at an even offset, verifies, over
  -- IPv4 and over IPv6, when the checksum could be computed.
  pub verify_transport_checksum-transport_checksum :
      (c : ℕ)
      → transport_checksum src dst protocol (with_field pre 0 post) ≡ ok c
      → verify_transport_checksum src dst protocol (with_field pre c post) ≡ ok true
  unfolding transport_checksum verify_transport_checksum
  verify_transport_checksum-transport_checksum c h = rw (length-with_field pre post c) (
      checked (build_pseudo_header src dst protocol (length (with_field pre 0 post)))
        (build_pseudo_header-IsPseudoHeader src dst protocol _ src_bytes dst_bytes) h)
    where
      checked :
          (r : Result (List ℕ))
          → IsPseudoHeader r
          → (r >>= λ ps. ok (
              if ones_complement (ps ++ with_field pre 0 post) == 0
              then 0xFFFF
              else ones_complement (ps ++ with_field pre 0 post)))
            ≡ ok c
          → (r >>= λ ps. ok (ones_complement (ps ++ with_field pre c post) == 0)) ≡ ok true
      checked (raise e) p h = cc
      checked (ok ps) (made b e) h = ground (arith, sent_field ps c b e (ok-eq h))

-- A transport checksum fits its field.
pub transport_checksum-lt :
    (src dst : List ℕ) (protocol : ℕ) (transport : List ℕ) (c : ℕ)
    → transport_checksum src dst protocol transport ≡ ok c
    → c < 2 ^ 16
unfolding transport_checksum ones_complement
transport_checksum-lt src dst protocol transport c h =
    let pseudo = >>=-eq-ok (build_pseudo_header src dst protocol (length transport)) _ h in
    let sum = ones_complement (pseudo.0 ++ transport) in
    let below : sum < 2 ^ 16 = low_bits_16-lt _ in
    let value : (if sum == 0 then 0xFFFF else sum) ≡ c = ok-eq pseudo.2 in ground arith
