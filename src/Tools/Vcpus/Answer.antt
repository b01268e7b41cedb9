-- ===== src/Tools/Vcpus/Answer.antt =====
-- QEMU's answer to query-cpus-fast, as a text: for each vCPU an object that begins with its thread
-- and holds its index further on.
use mathlib.Core.List.{append-nil, cons-ne-nil}
use phantom_tracker.Common.{
  ℕ, ◌^◌, ◌<◌, ◌≡◌, refl, ap, ◌∙◌, sym, true, none, some, List, [], ◌∷◌, ◌++◌,
}
use phantom_tracker.Tracker.Register.{QmpVcpu}
use phantom_tracker.Tools.Text.{Bytes, find_after, or_default}
use phantom_tracker.Tools.Text.Found.{is_clear, append_assoc, find_after-is_clear, find_after-none}
use phantom_tracker.Tools.Text.Decimal.{
  decimal_before, decimal_before-append, scan_int-decimal_before, no_digit_first,
}
use phantom_tracker.Tools.Vcpus.{entry_key, cpu_key, minus_one, vcpu_at, cpu_index_in}

-- A vCPU of the answer, with the texts that follow its two numbers.
pub record Entry : Type 0 where
  pub vcpu : QmpVcpu
  pub between : Bytes
  pub behind : Bytes

-- An object behind its key, in front of `s`.
unfoldable pub body : Entry → Bytes → Bytes
body e s =
    decimal_before e.vcpu.thread_id
      (e.between ++ (cpu_key ++ decimal_before e.vcpu.cpu_index (e.behind ++ s)))

unfoldable pub print_entries : List Entry → Bytes
unfolding body
print_entries [] = []
print_entries (e ∷ es) = entry_key ++ body e (print_entries es)

-- The numbers fit in an int, something that is no digit follows them, and the keys stand nowhere
-- but in their places.
pub record IsEntry (e : Entry) : Type 0 where
  pub thread : e.vcpu.thread_id < 2 ^ 31
  pub cpu : e.vcpu.cpu_index < 2 ^ 31
  pub ends_thread : no_digit_first (e.between ++ cpu_key) ≡ true
  pub ends_cpu : no_digit_first (e.behind ++ entry_key) ≡ true
  pub one_cpu : is_clear cpu_key (decimal_before e.vcpu.thread_id e.between) ≡ true
  pub one_entry : is_clear entry_key (body e []) ≡ true

abbrev pub AreEntries : List Entry → Type 0
AreEntries [] = Unit
AreEntries (e ∷ es) = IsEntry e × AreEntries es

pub body-append : (e : Entry) (s : Bytes) → body e s ≡ body e [] ++ s
unfolding body
body-append e s =
    let c = e.vcpu.cpu_index in
    sym (
      decimal_before-append e.vcpu.thread_id
        (e.between ++ (cpu_key ++ decimal_before c (e.behind ++ []))) s
      ∙ ap (decimal_before e.vcpu.thread_id) (
          append_assoc e.between (cpu_key ++ decimal_before c (e.behind ++ [])) s
          ∙ ap (λ (l : Bytes). e.between ++ (cpu_key ++ l))
              (decimal_before-append c (e.behind ++ []) s
                ∙ ap (decimal_before c) (append_assoc e.behind [] s))))

no_digit_first-swap :
    (m : Bytes) (k : ℕ) (key r : Bytes)
    → no_digit_first (m ++ (k ∷ key)) ≡ true
    → no_digit_first (m ++ (k ∷ r)) ≡ true
no_digit_first-swap [] k key r h = h
no_digit_first-swap (c ∷ m) k key r h = h

no_digit_first-entries :
    (m : Bytes) (es : List Entry)
    → no_digit_first (m ++ entry_key) ≡ true
    → no_digit_first (m ++ print_entries es) ≡ true
unfolding print_entries
no_digit_first-entries [] [] h = refl
no_digit_first-entries (c ∷ m) [] h = h
no_digit_first-entries [] (e ∷ es) h = h
no_digit_first-entries (c ∷ m) (e ∷ es) h = h

-- A round reads both numbers of the object that it stands at.
pub vcpu_at-body :
    (e : Entry) (es : List Entry) → IsEntry e → vcpu_at (body e (print_entries es)) ≡ e.vcpu
unfolding vcpu_at cpu_index_in body or_default
vcpu_at-body e es is =
    let rest = decimal_before e.vcpu.cpu_index (e.behind ++ print_entries es) in
    let thread =
      scan_int-decimal_before e.vcpu.thread_id (e.between ++ (cpu_key ++ rest)) is.thread
        (no_digit_first-swap e.between b'"' _ _ is.ends_thread) in
    let cpu =
      scan_int-decimal_before e.vcpu.cpu_index (e.behind ++ print_entries es) is.cpu
        (no_digit_first-entries e.behind es is.ends_cpu) in
    let found =
      find_after-is_clear cpu_key (decimal_before e.vcpu.thread_id e.between) rest is.one_cpu in
    let index =
      ap cpu_index_in (
        ap (find_after cpu_key)
          (sym (decimal_before-append e.vcpu.thread_id e.between (cpu_key ++ rest)))
        ∙ found)
      ∙ ap (or_default minus_one) cpu in
    λ i. record { cpu_index = index i; thread_id = ap (or_default minus_one) thread i }

-- Behind a text without the key, the next object is found, or none where there is none.
pub found_next :
    (m : Bytes) (e : Entry) (es : List Entry)
    → is_clear entry_key m ≡ true
    → find_after entry_key (m ++ print_entries (e ∷ es)) ≡ some (body e (print_entries es))
unfolding print_entries
found_next m e es h = find_after-is_clear entry_key m (body e (print_entries es)) h

pub found_none :
    (m : Bytes) → is_clear entry_key m ≡ true → find_after entry_key (m ++ print_entries []) ≡ none
unfolding print_entries
found_none m h = rw (append-nil m) (find_after-none entry_key m (cons-ne-nil _ _) h)
