-- ===== src/Sql/Sample.antt =====
-- `sqlite3_snprintf` for runs, with the numbers as the C library prints them.
use worker_informer.Base.{
  ℕ, suc, ◌-◌, ℤ, pos, negsuc, ◌++◌, refl, arith, codes, Lacks, All-append, take, c_string, print,
  print_int, digits_of-Digits, Digits-Lacks, contains, contains-Lacks,
}
use worker_informer.Sql.Literals.{doubled}
use worker_informer.Sql.Format.{Printf, PrintfLaws}

-- Reals are whole here.
abbrev pub printf : Printf ℕ
printf = record {
  percent_q = λ t. doubled (c_string t);
  percent_s = c_string;
  percent_d = print_int;
  percent_u = print;
  percent_f = λ x. print x ++ codes ".000000";
  fill = λ size t. take (size - 1) t;
}

print-Lacks : (n : ℕ) → Lacks b'\'' (print n)
print-Lacks n = Digits-Lacks b'\'' (print n) (omega arith) (digits_of-Digits _ n)

print_int-Lacks : (n : ℤ) → Lacks b'\'' (print_int n)
print_int-Lacks (pos n) = print-Lacks n
print_int-Lacks (negsuc n) = (λ e. ground arith, print-Lacks (suc n))

pub printf-PrintfLaws : PrintfLaws printf
unfolding contains
printf-PrintfLaws = record {
  percent_q_law = λ t. refl;
  percent_s_law = λ t. refl;
  percent_d_law = print_int-Lacks;
  percent_u_law = print-Lacks;
  percent_f_law = λ x.
      All-append _ (print x) (codes ".000000") (print-Lacks x)
        (contains-Lacks b'\'' (codes ".000000") refl);
  fill_law = λ size t. refl;
}
