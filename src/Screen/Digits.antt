-- ===== src/Screen/Digits.antt =====
-- common/Print.c: the digits that printHex writes stand for the number.
use skhuos.Common.{
  ℕ, zero, suc, ◌+◌, ◌-◌, ◌*◌, ◌/◌, ◌%◌, ◌^◌, ◌<◌, ◌≤◌, ◌≡◌, refl, ap, ◌∙◌, List, ◌==◌,
  if◌then◌else◌, ltb, arith, Bool-cases, inl, inr, length, get_or, set, replicate, length-set,
  get_or-set_self, get_or-set_ne,
}
use skhuos.Screen.{digits, digit}

-- The number that a hexadecimal digit stands for.
abbrev pub undigit : ℕ → ℕ
undigit c = if ltb c 65 then c - 48 else c - 55

-- The number whose digits stand in a block from `i` on, the least one first.
abbrev pub value : List ℕ → ℕ → ℕ → ℕ
value b i zero = 0
value b i (suc n) = undigit (get_or b i 0) + 16 * value b (i + 1) n

-- What `k` digits can hold.
abbrev pub room : ℕ → ℕ
room zero = 1
room (suc k) = 16 * room k

-- The digits from `c` on stand for `num`, there are at most `k`, and the block is as it was before `c`.
record Written (k num : ℕ) (b : List ℕ) (c : ℕ) (r : List ℕ × ℕ) : Type 0 where
  more : c ≤ r.1
  most : r.1 ≤ c + k
  means : value r.0 c (r.1 - c) ≡ num
  before : (j : ℕ) → j < c → get_or r.0 j 0 ≡ get_or b j 0

undigit_lem : (d : ℕ) → d < 16 → undigit (digit d) ≡ d
undigit_lem d h = ground arith

none_left : (c : ℕ) → c - c ≡ 0
none_left c = omega arith

one_more : (c n : ℕ) → c + 1 ≤ n → n - c ≡ suc (n - (c + 1))
one_more c n h = omega arith

digits_lem :
    (k num : ℕ) (b : List ℕ) (c : ℕ)
    → num < room k
    → c + k ≤ length b
    → Written k num b c (digits k num 16 b c)
unfolding digits
digits_lem zero num b c h l = record {
  more = omega arith;
  most = omega arith;
  means = ap (value b c) (none_left c) ∙ omega arith;
  before = λ j i. refl;
}
digits_lem (suc k) num b c h l = elim (Bool-cases (num == 0)) [
  | inl z ↦ rw z (record {
    more = omega arith;
    most = omega arith;
    means = ap (value b c) (none_left c) ∙ ground arith;
    before = λ j i. refl;
  })
  | inr nz ↦
      let b₁ = set b c (digit (num % 16)) in
      let w =
        digits_lem k (num / 16) b₁ (c + 1) (omega arith)
          (omega (arith, length-set b c (digit (num % 16)))) in
      let r = digits k (num / 16) 16 b₁ (c + 1) in
      let head : undigit (get_or r.0 c 0) ≡ num % 16 =
        ap undigit
          (w.before c (omega arith) ∙ get_or-set_self b c (digit (num % 16)) 0 (omega arith))
        ∙ undigit_lem (num % 16) (omega arith) in
      rw nz (record {
        more = omega (arith, w.more);
        most = omega (arith, w.most);
        means = ap (value r.0 c) (one_more c r.1 w.more) ∙ omega (arith, w.means, head);
        before = λ j i.
            w.before j (omega arith) ∙ get_or-set_ne b c j (digit (num % 16)) 0 (λ e. omega arith);
      })
]

-- The digits that `printHex` finds, before it turns them round, stand for its argument, the least one first;
-- there are at most 16 of them, so that they fit the block.
digits_hex :
    (num : ℕ)
    → num < 2 ^ 64
    → let (char_num, count) = digits 16 num 16 (replicate 16 0) 0 in
      (value char_num 0 count ≡ num) × (count ≤ 16)
digits_hex num h =
    let w = digits_lem 16 num (replicate 16 0) 0 h (omega arith) in
    (ap (value r.0 0) (all r.1) ∙ w.means, w.most)
  where
    r : List ℕ × ℕ
    r = digits 16 num 16 (replicate 16 0) 0

    all : (n : ℕ) → n ≡ n - 0
    all n = omega arith
