-- ===== src/Sort/Lex.antt =====
-- Comparisons that go by one key and, where the keys are equal, by another comparison.
use starrygl_tmp.Prelude.{
  Bool, true, false, ◌≡◌, sym, ◌∙◌, ite, if_pos, if_neg, ltb_ℤ, eq_of_parts, arith,
}
use starrygl_tmp.Sort.Laws.{IsStrictWeak}

-- A strict order in which two elements, neither of which precedes the other, are equal.
pub record IsStrictTotal {K : Type 0} (less : K → K → Bool) : Type 0 where
  pub weak : IsStrictWeak less
  pub antisym : (a b : K) → less a b ≡ false → less b a ≡ false → a ≡ b

pub ltb_ℤ-IsStrictTotal : IsStrictTotal ltb_ℤ
ltb_ℤ-IsStrictTotal = record {
  weak = record { asym = λ a b h. ground arith; trans = λ a b c h k. ground arith };
  antisym = λ a b h k. eq_of_parts a b (ground arith);
}

pub by_key-IsStrictWeak :
    {A K : Type 0} (key : A → K) (less : K → K → Bool)
    → IsStrictWeak less
    → IsStrictWeak (λ (a b : A). less (key a) (key b))
by_key-IsStrictWeak key less w = record {
  asym = λ a b. w.asym (key a) (key b);
  trans = λ a b c. w.trans (key a) (key b) (key c);
}

module _ {A K : Type 0} (dec : Discrete K) (key : A → K) (less : K → K → Bool)
    (rest : A → A → Bool) where
  abbrev pub lex_less : A → A → Bool
  lex_less a b = ite (dec (key a) (key b)) (rest a b) (less (key a) (key b))

  lex_same : (a b : A) → key a ≡ key b → lex_less a b ≡ rest a b
  lex_same a b e = if_pos (dec (key a) (key b)) e (rest a b) (less (key a) (key b))

  lex_apart : (a b : A) → ¬ (key a ≡ key b) → lex_less a b ≡ less (key a) (key b)
  lex_apart a b n = if_neg (dec (key a) (key b)) n (rest a b) (less (key a) (key b))

  module _ (t : IsStrictTotal less) (w : IsStrictWeak rest) where
    lex_asym : (a b : A) → lex_less a b ≡ true → lex_less b a ≡ false
    lex_asym a b h = elim (dec (key a) (key b)) [
      | yes e ↦ lex_same b a (sym e) ∙ w.asym a b (sym (lex_same a b e) ∙ h)
      | no n ↦
          lex_apart b a (λ e. n (sym e)) ∙ t.weak.asym (key a) (key b) (sym (lex_apart a b n) ∙ h)
    ]

    lex_trans : (a b c : A) → lex_less b a ≡ false → lex_less c b ≡ false → lex_less c a ≡ false
    lex_trans a b c h k = elim (dec (key b) (key a)) [
      | yes e ↦ elim (dec (key c) (key b)) [
        | yes f ↦
            lex_same c a (f ∙ e)
            ∙ w.trans a b c (sym (lex_same b a e) ∙ h) (sym (lex_same c b f) ∙ k)
        | no m ↦ lex_apart c a (λ f. m (f ∙ sym e)) ∙ rw (← e) (sym (lex_apart c b m) ∙ k)
      ]
      | no n ↦
          let before : less (key b) (key a) ≡ false = sym (lex_apart b a n) ∙ h in
          elim (dec (key c) (key b)) [
            | yes f ↦ lex_apart c a (λ g. n (sym f ∙ g)) ∙ rw f before
            | no m ↦
                let later : less (key c) (key b) ≡ false = sym (lex_apart c b m) ∙ k in
                elim (dec (key c) (key a)) [
                  | yes g ↦ absurd (n (t.antisym (key b) (key a) before (rw (← g) later)))
                  | no apart ↦
                      lex_apart c a apart ∙ t.weak.trans (key a) (key b) (key c) before later
                ]
          ]
    ]

    pub lex_less-IsStrictWeak : IsStrictWeak lex_less
    lex_less-IsStrictWeak = record { asym = lex_asym; trans = lex_trans }
