-- ===== src/Sql/Format.antt =====
-- `sqlite3_snprintf`, and texts with string literals in them.
use worker_informer.Base.{
  ℕ, ◌-◌, ℤ, pos, Bool, true, false, List, [], ◌∷◌, ◌++◌, ◌≡◌, Bytes, Lacks, take, c_string,
}
use worker_informer.Sql.Literals.{doubled}

-- What it makes of an argument, by its conversion, and what a buffer of a size gets of a text.
pub record Printf (Real : Type 0) : Type 0 where
  pub percent_q : Bytes → Bytes
  pub percent_s : Bytes → Bytes
  -- also `%lld`
  pub percent_d : ℤ → Bytes
  pub percent_u : ℕ → Bytes
  pub percent_f : Real → Bytes
  pub fill : ℕ → Bytes → Bytes

-- What SQLite documents of them.
pub record PrintfLaws {Real : Type 0} (printf : Printf Real) : Type 0 where
  pub percent_q_law : (t : Bytes) → printf.percent_q t ≡ doubled (c_string t)
  pub percent_s_law : (t : Bytes) → printf.percent_s t ≡ c_string t
  pub percent_d_law : (n : ℤ) → Lacks b'\'' (printf.percent_d n)
  pub percent_u_law : (n : ℕ) → Lacks b'\'' (printf.percent_u n)
  pub percent_f_law : (x : Real) → Lacks b'\'' (printf.percent_f x)
  pub fill_law : (size : ℕ) (t : Bytes) → printf.fill size t ≡ take (size - 1) t

-- What stands outside of quotes in a format string: text, and the conversions `%d` and `%lld`, `%u`, `%f` with
-- their arguments.
pub data Item (Real : Type 0) : Type 0 where
  text : Bytes → Item Real
  int : ℤ → Item Real
  unsigned : ℕ → Item Real
  real : Real → Item Real

module _ {Real : Type 0} (printf : Printf Real) where
  abbrev pub printed_item : Item Real → Bytes
  printed_item (text t) = t
  printed_item (int n) = printf.percent_d n
  printed_item (unsigned n) = printf.percent_u n
  printed_item (real x) = printf.percent_f x

  unfoldable pub printed : List (Item Real) → Bytes
  printed [] = []
  printed (item ∷ items) = printed_item item ++ printed items

  -- `'%q'` or `'%s'` in a format string, by the conversion: in front of each one what the format has there,
  -- with the argument; and the end of the format.
  unfoldable pub with_quoted :
      (Bytes → Bytes) → List (List (Item Real) × Bytes) → List (Item Real) → Bytes
  unfolding printed
  with_quoted quoting [] back = printed back
  with_quoted quoting ((front, t) ∷ more) back =
      printed front ++ (b'\'' ∷ (quoting t ++ b'\'' ∷ with_quoted quoting more back))

-- `x ? 1 : 0`
abbrev pub one_if : Bool → ℤ
one_if true = pos 1
one_if false = pos 0
