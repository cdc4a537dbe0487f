-- ===== src/Names/Distinct.antt =====
-- Which codes the log tells apart.
use serial_ip.Base.{
  ℕ, ◌/◌, ◌≤◌, Bool, true, false, List, [], ◌∷◌, ◌++◌, ◌≡◌, ◌≢◌, refl, sym, ap, ◌∙◌, arith, ◌==◌,
  if◌then◌else◌,
}
use serial_ip.Base.Switch.{has_case, Inverts, switch-Inverts, switch-default}
use serial_ip.Base.Text.{Text, codes}
use serial_ip.Names.{telnet_cpc_subopt2str, subopt_names, two_digits}

-- The comparison of two strings.
abbrev same_text : Text → Text → Bool
same_text [] [] = true
same_text [] (y ∷ ys) = false
same_text (x ∷ xs) [] = false
same_text (x ∷ xs) (y ∷ ys) = if x == y then same_text xs ys else false

-- The first code of a table that has a name.
abbrev code_of : List (ℕ × Text) → Text → ℕ
code_of [] t = 256
code_of ((c, v) ∷ cases) t = if same_text v t then c else code_of cases t

names_invert : Inverts (code_of subopt_names) subopt_names
names_invert =
    ((
      refl,
      (
        refl,
        (
          refl,
          (
            refl,
            (
              refl,
              (
                refl,
                (
                  refl,
                  (
                    refl,
                    (
                      refl,
                      (
                        refl,
                        (
                          refl,
                          (
                            refl,
                            (
                              refl,
                              (
                                refl,
                                (
                                  refl,
                                  (
                                    refl,
                                    (
                                      refl,
                                      (
                                        refl,
                                        (
                                          refl,
                                          (
                                            refl,
                                            (refl, (refl, (refl, (refl, (refl, (refl, tt)))))),
                                          ),
                                        ),
                                      ),
                                    ),
                                  ),
                                ),
                              ),
                            ),
                          ),
                        ),
                      ),
                    ),
                  ),
                ),
              ),
            ),
          ),
        ),
      ),
    ))

named :
    (k : ℕ) → has_case k subopt_names ≡ true → code_of subopt_names (telnet_cpc_subopt2str k) ≡ k
unfolding telnet_cpc_subopt2str
named k p =
    let d : Text = codes "Code " ++ two_digits k in
    switch-Inverts (code_of subopt_names) k subopt_names d names_invert
    ∙ ap (λ t. if t then k else code_of subopt_names d) p

first_two : (a b : ℕ) → 100 ≤ a → 100 ≤ b → a / 10 ≡ b / 10 → two_digits a ≡ two_digits b
first_two a b p q e = ground arith

-- Two different suboption codes of the table have different names.
pub telnet_cpc_subopt2str-distinct :
    (a b : ℕ)
    → has_case a subopt_names ≡ true
    → has_case b subopt_names ≡ true
    → a ≢ b
    → telnet_cpc_subopt2str a ≢ telnet_cpc_subopt2str b
telnet_cpc_subopt2str-distinct a b p q other e =
    other (sym (named a p) ∙ ap (code_of subopt_names) e ∙ named b q)

-- Two codes from 100 on that the table does not have, and that differ in their last digit only,
-- are given the same name.
pub telnet_cpc_subopt2str-cut :
    (a b : ℕ)
    → has_case a subopt_names ≡ false
    → has_case b subopt_names ≡ false
    → 100 ≤ a
    → 100 ≤ b
    → a / 10 ≡ b / 10
    → telnet_cpc_subopt2str a ≡ telnet_cpc_subopt2str b
unfolding telnet_cpc_subopt2str
telnet_cpc_subopt2str-cut a b p q a_low b_low e =
    switch-default a subopt_names (codes "Code " ++ two_digits a) p
    ∙ ap (λ t. codes "Code " ++ t) (first_two a b a_low b_low e)
    ∙ sym (switch-default b subopt_names (codes "Code " ++ two_digits b) q)
