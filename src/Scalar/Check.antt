-- ===== src/Scalar/Check.antt =====
-- src/crypto/crypto-ops.c: `signum` and `sc_check`.
use bitmonero.Base.{ℕ, zero, suc, ◌+◌, ◌*◌, ◌^◌, ◌≤◌, ◌<◌, ◌≡◌, refl, arith, ap, ◌∙◌}
use bitmonero.Base.{◌⊎◌, inl, List, length, drop}
use bitmonero.Base.Int.{
  ℤ, pos, negsuc, pos_part, neg_part, ◌+ℤ◌, ◌-ℤ◌, ◌*ℤ◌, ◌>>ℤ◌, ◌<<ℤ◌, int_laws,
}
use bitmonero.Base.Bytes.{IsBytes, le_value, le_value-lt}
use bitmonero.Scalar.Codec.{load_4}
use bitmonero.Scalar.Load.{load_4-drop}
use bitmonero.Scalar.Value.{order}

unfoldable pub signum : ℤ → ℤ
unfolding ◌-ℤ◌ ◌>>ℤ◌
signum a = (a >>ℤ 63) -ℤ ((pos 0 -ℤ a) >>ℤ 63)

-- 0 if the 32 bytes are a number below the order of the group, else -1.
unfoldable pub sc_check : List ℕ → ℤ
unfolding signum load_4 ◌+ℤ◌ ◌<<ℤ◌
sc_check s =
    (signum (pos 1559614444 -ℤ pos (load_4 s))
      +ℤ (signum (pos 1477600026 -ℤ pos (load_4 (drop 4 s))) <<ℤ 1)
      +ℤ (signum (pos 2734136534 -ℤ pos (load_4 (drop 8 s))) <<ℤ 2)
      +ℤ (signum (pos 350157278 -ℤ pos (load_4 (drop 12 s))) <<ℤ 3)
      +ℤ (signum (pos 0 -ℤ pos (load_4 (drop 16 s))) <<ℤ 4)
      +ℤ (signum (pos 0 -ℤ pos (load_4 (drop 20 s))) <<ℤ 5)
      +ℤ (signum (pos 0 -ℤ pos (load_4 (drop 24 s))) <<ℤ 6)
      +ℤ (signum (pos 268435456 -ℤ pos (load_4 (drop 28 s))) <<ℤ 7))
    >>ℤ 8

-- `d` has the sign of c - v.
abbrev Agrees : ℤ → ℕ → ℕ → Type 0
Agrees d c v =
    ((c ≡ v) × (pos_part d ≡ 0) × (neg_part d ≡ 0))
    ⊎ (((v < c) × (0 < pos_part d) × (neg_part d ≡ 0))
        ⊎ ((c < v) × (pos_part d ≡ 0) × (0 < neg_part d)))

abbrev IsSign : ℤ → Type 0
IsSign d = (pos_part d ≤ 1) × (neg_part d ≤ 1)

signum_cases :
    (x : ℤ)
    → pos_part x < 2 ^ 63
    → neg_part x < 2 ^ 63
    → ((x ≡ pos 0) × (signum x ≡ pos 0))
      ⊎ (((0 < pos_part x) × (signum x ≡ pos 1)) ⊎ ((0 < neg_part x) × (signum x ≡ negsuc 0)))
unfolding signum
signum_cases (pos zero) p q = inl (refl, refl)
signum_cases (pos (suc n)) p q = ground arith
signum_cases (negsuc n) p q = ground arith

-- One more word below.
step :
    (d e : ℤ) (c v c' v' : ℕ)
    → c < 4294967296
    → v < 4294967296
    → IsSign d
    → Agrees d c v
    → Agrees e c' v'
    → Agrees (d +ℤ (e <<ℤ 1)) (c + 4294967296 * c') (v + 4294967296 * v')
unfolding ◌+ℤ◌ ◌<<ℤ◌ ◌*ℤ◌
step (pos d) (pos e) c v c' v' hc hv s p q = ground arith
step (pos d) (negsuc e) c v c' v' hc hv s p q = ground arith
step (negsuc d) (pos e) c v c' v' hc hv s p q = ground arith
step (negsuc d) (negsuc e) c v c' v' hc hv s p q = ground arith

signum-Agrees :
    (c v : ℕ)
    → c < 4294967296
    → v < 4294967296
    → Agrees (signum (pos c -ℤ pos v)) c v × IsSign (signum (pos c -ℤ pos v))
unfolding ◌-ℤ◌
signum-Agrees c v hc hv = ground (arith, signum_cases (pos c -ℤ pos v))

-- The shifts of two neighbours in the sum.
merge_6 : (a d r : ℤ) → a +ℤ (d <<ℤ 6) +ℤ (r <<ℤ 7) ≡ a +ℤ ((d +ℤ (r <<ℤ 1)) <<ℤ 6)
merge_6 a d r = omega int_laws

merge_5 : (a d r : ℤ) → a +ℤ (d <<ℤ 5) +ℤ (r <<ℤ 6) ≡ a +ℤ ((d +ℤ (r <<ℤ 1)) <<ℤ 5)
merge_5 a d r = omega int_laws

merge_4 : (a d r : ℤ) → a +ℤ (d <<ℤ 4) +ℤ (r <<ℤ 5) ≡ a +ℤ ((d +ℤ (r <<ℤ 1)) <<ℤ 4)
merge_4 a d r = omega int_laws

merge_3 : (a d r : ℤ) → a +ℤ (d <<ℤ 3) +ℤ (r <<ℤ 4) ≡ a +ℤ ((d +ℤ (r <<ℤ 1)) <<ℤ 3)
merge_3 a d r = omega int_laws

merge_2 : (a d r : ℤ) → a +ℤ (d <<ℤ 2) +ℤ (r <<ℤ 3) ≡ a +ℤ ((d +ℤ (r <<ℤ 1)) <<ℤ 2)
merge_2 a d r = omega int_laws

merge_1 : (a d r : ℤ) → a +ℤ (d <<ℤ 1) +ℤ (r <<ℤ 2) ≡ a +ℤ ((d +ℤ (r <<ℤ 1)) <<ℤ 1)
merge_1 a d r = omega int_laws

-- A sum of shifts by 0, 1, …, 7 as shifts by 1.
shifts :
    (d0 d1 d2 d3 d4 d5 d6 d7 : ℤ)
    → d0
        +ℤ (d1 <<ℤ 1)
        +ℤ (d2 <<ℤ 2)
        +ℤ (d3 <<ℤ 3)
        +ℤ (d4 <<ℤ 4)
        +ℤ (d5 <<ℤ 5)
        +ℤ (d6 <<ℤ 6)
        +ℤ (d7 <<ℤ 7)
      ≡ d0
        +ℤ ((d1
              +ℤ ((d2
                    +ℤ ((d3 +ℤ ((d4 +ℤ ((d5 +ℤ ((d6 +ℤ ((d7) <<ℤ 1)) <<ℤ 1)) <<ℤ 1)) <<ℤ 1)) <<ℤ 1))
                  <<ℤ 1))
            <<ℤ 1)
shifts d0 d1 d2 d3 d4 d5 d6 d7 =
    merge_6 (d0 +ℤ (d1 <<ℤ 1) +ℤ (d2 <<ℤ 2) +ℤ (d3 <<ℤ 3) +ℤ (d4 <<ℤ 4) +ℤ (d5 <<ℤ 5)) d6 (d7)
    ∙ merge_5 (d0 +ℤ (d1 <<ℤ 1) +ℤ (d2 <<ℤ 2) +ℤ (d3 <<ℤ 3) +ℤ (d4 <<ℤ 4)) d5 (d6 +ℤ ((d7) <<ℤ 1))
    ∙ merge_4 (d0 +ℤ (d1 <<ℤ 1) +ℤ (d2 <<ℤ 2) +ℤ (d3 <<ℤ 3)) d4 (d5 +ℤ ((d6 +ℤ ((d7) <<ℤ 1)) <<ℤ 1))
    ∙ merge_3 (d0 +ℤ (d1 <<ℤ 1) +ℤ (d2 <<ℤ 2)) d3
        (d4 +ℤ ((d5 +ℤ ((d6 +ℤ ((d7) <<ℤ 1)) <<ℤ 1)) <<ℤ 1))
    ∙ merge_2 (d0 +ℤ (d1 <<ℤ 1)) d2
        (d3 +ℤ ((d4 +ℤ ((d5 +ℤ ((d6 +ℤ ((d7) <<ℤ 1)) <<ℤ 1)) <<ℤ 1)) <<ℤ 1))
    ∙ merge_1 (d0) d1
        (d2 +ℤ ((d3 +ℤ ((d4 +ℤ ((d5 +ℤ ((d6 +ℤ ((d7) <<ℤ 1)) <<ℤ 1)) <<ℤ 1)) <<ℤ 1)) <<ℤ 1))

sum_sign :
    (d : ℤ) (c v : ℕ)
    → Agrees d c v
    → pos_part d < 256
    → neg_part d ≤ 256
    → ((v ≤ c) × (d >>ℤ 8 ≡ pos 0)) ⊎ ((c < v) × (d >>ℤ 8 ≡ negsuc 0))
unfolding ◌>>ℤ◌
sum_sign (pos n) c v a p q = ground arith
sum_sign (negsuc n) c v a p q = ground arith

-- A value of at most m on both sides.
abbrev IsWithin : ℤ → ℕ → Type 0
IsWithin d m = (pos_part d ≤ m) × (neg_part d ≤ m)

step-IsWithin : (m : ℕ) (d e : ℤ) → IsSign d → IsWithin e m → IsWithin (d +ℤ (e <<ℤ 1)) (1 + 2 * m)
unfolding ◌+ℤ◌ ◌<<ℤ◌ ◌*ℤ◌
step-IsWithin m (pos d) (pos e) p q = ground arith
step-IsWithin m (pos d) (negsuc e) p q = ground arith
step-IsWithin m (negsuc d) (pos e) p q = ground arith
step-IsWithin m (negsuc d) (negsuc e) p q = ground arith

-- One word of a comparison: the two words, their sign, and what is known of it.
abbrev IsWord : ℤ → ℕ → ℕ → Type 0
IsWord d c v = (c < 4294967296) × (v < 4294967296) × Agrees d c v × IsSign d

-- The words of a comparison from one place on.
abbrev Compares : ℤ → ℕ → ℕ → ℕ → Type 0
Compares d c v m = Agrees d c v × IsWithin d m

more :
    (m : ℕ) (d e : ℤ) (c v c' v' : ℕ)
    → IsWord d c v
    → Compares e c' v' m
    → Compares (d +ℤ (e <<ℤ 1)) (c + 4294967296 * c') (v + 4294967296 * v') (1 + 2 * m)
more m d e c v c' v' (p, q, a, s) (b, w) = (step d e c v c' v' p q s a b, step-IsWithin m d e s w)

module _ (d0 d1 d2 d3 d4 d5 d6 d7 : ℤ) (c0 c1 c2 c3 c4 c5 c6 c7 v0 v1 v2 v3 v4 v5 v6 v7 : ℕ) where
  compare_words :
      IsWord d0 c0 v0
      → IsWord d1 c1 v1
      → IsWord d2 c2 v2
      → IsWord d3 c3 v3
      → IsWord d4 c4 v4
      → IsWord d5 c5 v5
      → IsWord d6 c6 v6
      → IsWord d7 c7 v7
      → Compares
          (d0
            +ℤ ((d1
                  +ℤ ((d2
                        +ℤ ((d3 +ℤ ((d4 +ℤ ((d5 +ℤ ((d6 +ℤ ((d7) <<ℤ 1)) <<ℤ 1)) <<ℤ 1)) <<ℤ 1))
                            <<ℤ 1))
                      <<ℤ 1))
                <<ℤ 1))
          (c0
            + 4294967296
              * (c1
                  + 4294967296
                    * (c2
                        + 4294967296
                          * (c3
                              + 4294967296
                                * (c4
                                    + 4294967296 * (c5 + 4294967296 * (c6 + 4294967296 * (c7))))))))
          (v0
            + 4294967296
              * (v1
                  + 4294967296
                    * (v2
                        + 4294967296
                          * (v3
                              + 4294967296
                                * (v4
                                    + 4294967296 * (v5 + 4294967296 * (v6 + 4294967296 * (v7))))))))
          255
  compare_words w0 w1 w2 w3 w4 w5 w6 w7 =
      more 127 d0
        (d1
          +ℤ ((d2 +ℤ ((d3 +ℤ ((d4 +ℤ ((d5 +ℤ ((d6 +ℤ ((d7) <<ℤ 1)) <<ℤ 1)) <<ℤ 1)) <<ℤ 1)) <<ℤ 1))
              <<ℤ 1))
        c0 v0
        (c1
          + 4294967296
            * (c2
                + 4294967296
                  * (c3
                      + 4294967296
                        * (c4 + 4294967296 * (c5 + 4294967296 * (c6 + 4294967296 * (c7)))))))
        (v1
          + 4294967296
            * (v2
                + 4294967296
                  * (v3
                      + 4294967296
                        * (v4 + 4294967296 * (v5 + 4294967296 * (v6 + 4294967296 * (v7)))))))
        w0
        (more 63 d1
          (d2 +ℤ ((d3 +ℤ ((d4 +ℤ ((d5 +ℤ ((d6 +ℤ ((d7) <<ℤ 1)) <<ℤ 1)) <<ℤ 1)) <<ℤ 1)) <<ℤ 1)) c1 v1
          (c2
            + 4294967296
              * (c3
                  + 4294967296 * (c4 + 4294967296 * (c5 + 4294967296 * (c6 + 4294967296 * (c7))))))
          (v2
            + 4294967296
              * (v3
                  + 4294967296 * (v4 + 4294967296 * (v5 + 4294967296 * (v6 + 4294967296 * (v7))))))
          w1
          (more 31 d2 (d3 +ℤ ((d4 +ℤ ((d5 +ℤ ((d6 +ℤ ((d7) <<ℤ 1)) <<ℤ 1)) <<ℤ 1)) <<ℤ 1)) c2 v2
            (c3 + 4294967296 * (c4 + 4294967296 * (c5 + 4294967296 * (c6 + 4294967296 * (c7)))))
            (v3 + 4294967296 * (v4 + 4294967296 * (v5 + 4294967296 * (v6 + 4294967296 * (v7))))) w2
            (more 15 d3 (d4 +ℤ ((d5 +ℤ ((d6 +ℤ ((d7) <<ℤ 1)) <<ℤ 1)) <<ℤ 1)) c3 v3
              (c4 + 4294967296 * (c5 + 4294967296 * (c6 + 4294967296 * (c7))))
              (v4 + 4294967296 * (v5 + 4294967296 * (v6 + 4294967296 * (v7)))) w3
              (more 7 d4 (d5 +ℤ ((d6 +ℤ ((d7) <<ℤ 1)) <<ℤ 1)) c4 v4
                (c5 + 4294967296 * (c6 + 4294967296 * (c7)))
                (v5 + 4294967296 * (v6 + 4294967296 * (v7))) w4
                (more 3 d5 (d6 +ℤ ((d7) <<ℤ 1)) c5 v5 (c6 + 4294967296 * (c7))
                  (v6 + 4294967296 * (v7)) w5 (more 1 d6 (d7) c6 v6 (c7) (v7) w6 (w7.2, w7.3)))))))

IsWord-of : (c v : ℕ) → c < 4294967296 → v < 4294967296 → IsWord (signum (pos c -ℤ pos v)) c v
IsWord-of c v p q = let (a, s) = signum-Agrees c v p q in (p, q, a, s)

-- The sum of `sc_check`, by shifts of 1.
sc_check_parts :
    (s : List ℕ)
    → sc_check s
      ≡ ((signum (pos 1559614444 -ℤ pos (load_4 s)))
          +ℤ (((signum (pos 1477600026 -ℤ pos (load_4 (drop 4 s))))
                +ℤ (((signum (pos 2734136534 -ℤ pos (load_4 (drop 8 s))))
                      +ℤ (((signum (pos 350157278 -ℤ pos (load_4 (drop 12 s))))
                            +ℤ (((signum (pos 0 -ℤ pos (load_4 (drop 16 s))))
                                  +ℤ (((signum (pos 0 -ℤ pos (load_4 (drop 20 s))))
                                        +ℤ (((signum (pos 0 -ℤ pos (load_4 (drop 24 s))))
                                              +ℤ (((signum
                                                    (pos 268435456 -ℤ pos (load_4 (drop 28 s)))))
                                                  <<ℤ 1))
                                            <<ℤ 1))
                                      <<ℤ 1))
                                <<ℤ 1))
                          <<ℤ 1))
                    <<ℤ 1))
              <<ℤ 1))
        >>ℤ 8
unfolding sc_check
sc_check_parts s =
    ap (λ (t : ℤ). t >>ℤ 8)
      (shifts (signum (pos 1559614444 -ℤ pos (load_4 s)))
        (signum (pos 1477600026 -ℤ pos (load_4 (drop 4 s))))
        (signum (pos 2734136534 -ℤ pos (load_4 (drop 8 s))))
        (signum (pos 350157278 -ℤ pos (load_4 (drop 12 s))))
        (signum (pos 0 -ℤ pos (load_4 (drop 16 s)))) (signum (pos 0 -ℤ pos (load_4 (drop 20 s))))
        (signum (pos 0 -ℤ pos (load_4 (drop 24 s))))
        (signum (pos 268435456 -ℤ pos (load_4 (drop 28 s)))))

module _ (s : List ℕ) (h : IsBytes s) (l : length s ≡ 32) where
  load_lt : (n : ℕ) → load_4 (drop n s) < 4294967296
  load_lt n = omega (arith, load_4-drop s h n)

  words_value :
      load_4 s
        + 4294967296
          * (load_4 (drop 4 s)
              + 4294967296
                * (load_4 (drop 8 s)
                    + 4294967296
                      * (load_4 (drop 12 s)
                          + 4294967296
                            * (load_4 (drop 16 s)
                                + 4294967296
                                  * (load_4 (drop 20 s)
                                      + 4294967296
                                        * (load_4 (drop 24 s)
                                            + 4294967296 * (load_4 (drop 28 s))))))))
      ≡ le_value s
  words_value =
      let fits : le_value s < 2 ^ 256 = rw l at (le_value-lt s h) in
      omega (
        arith,
        load_4-drop s h 0,
        load_4-drop s h 4,
        load_4-drop s h 8,
        load_4-drop s h 12,
        load_4-drop s h 16,
        load_4-drop s h 20,
        load_4-drop s h 24,
        load_4-drop s h 28,
      )

  -- On 32 bytes `sc_check` answers 0 for the numbers below the order of the group, and -1 for
  -- all others.
  pub sc_check_decides :
      ((le_value s < order) × (sc_check s ≡ pos 0))
      ⊎ ((order ≤ le_value s) × (sc_check s ≡ negsuc 0))
  sc_check_decides =
      let k =
        compare_words (signum (pos 1559614444 -ℤ pos (load_4 s)))
          (signum (pos 1477600026 -ℤ pos (load_4 (drop 4 s))))
          (signum (pos 2734136534 -ℤ pos (load_4 (drop 8 s))))
          (signum (pos 350157278 -ℤ pos (load_4 (drop 12 s))))
          (signum (pos 0 -ℤ pos (load_4 (drop 16 s)))) (signum (pos 0 -ℤ pos (load_4 (drop 20 s))))
          (signum (pos 0 -ℤ pos (load_4 (drop 24 s))))
          (signum (pos 268435456 -ℤ pos (load_4 (drop 28 s)))) 1559614444 1477600026 2734136534
          350157278 0 0 0 268435456 (load_4 s) (load_4 (drop 4 s)) (load_4 (drop 8 s))
          (load_4 (drop 12 s)) (load_4 (drop 16 s)) (load_4 (drop 20 s)) (load_4 (drop 24 s))
          (load_4 (drop 28 s)) (IsWord-of 1559614444 (load_4 s) (omega arith) (load_lt 0))
          (IsWord-of 1477600026 (load_4 (drop 4 s)) (omega arith) (load_lt 4))
          (IsWord-of 2734136534 (load_4 (drop 8 s)) (omega arith) (load_lt 8))
          (IsWord-of 350157278 (load_4 (drop 12 s)) (omega arith) (load_lt 12))
          (IsWord-of 0 (load_4 (drop 16 s)) (omega arith) (load_lt 16))
          (IsWord-of 0 (load_4 (drop 20 s)) (omega arith) (load_lt 20))
          (IsWord-of 0 (load_4 (drop 24 s)) (omega arith) (load_lt 24))
          (IsWord-of 268435456 (load_4 (drop 28 s)) (omega arith) (load_lt 28)) in
      ground (
        arith,
        sum_sign _ _ _ k.0 (omega (arith, k.1.0)) (omega (arith, k.1.1)),
        sc_check_parts s,
        words_value,
      )
