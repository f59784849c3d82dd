-- ===== src/Integrations/Unary.antt =====
-- An instance of the interface of the texts of timestamps, to run the driver on: a time as a run of
-- one letter.
use omnisync.Base.{ℕ, zero, suc, ◌≡◌, ◌≢◌, refl, ap, String, some}
use omnisync.Integrations.{TimeText}

abbrev pub time_text : ℕ → String
time_text zero = "t"
time_text (suc n) = String.◌∷◌ "a" (time_text n)

abbrev pub text_time : String → ℕ
text_time String.[] = 0
text_time (String.◌∷◌ c String.[]) = 0
text_time (String.◌∷◌ c (String.◌∷◌ d s)) = suc (text_time (String.◌∷◌ d s))

pub text_time-time_text : (n : ℕ) → text_time (time_text n) ≡ n
text_time-time_text zero = refl
text_time-time_text (suc zero) = refl
text_time-time_text (suc (suc n)) = ap suc (text_time-time_text (suc n))

pub time_text-ne-empty : (n : ℕ) → time_text n ≢ ""
time_text-ne-empty zero h = cc
time_text-ne-empty (suc n) h = cc

abbrev pub texts : TimeText
texts = record {
  isoformat = time_text;
  fromisoformat = λ t. some (text_time t);
  parse-print = λ t. ap some (text_time-time_text t);
  print-ne-empty = time_text-ne-empty;
}
