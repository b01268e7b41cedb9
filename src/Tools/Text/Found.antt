-- ===== src/Tools/Text/Found.antt =====
-- pvsched-ebpf/host/user/register_vm.c: where strstr finds a key.
use phantom_tracker.Common.{
  ℕ, ◌+◌, ◌≤◌, ◌≡◌, ◌≢◌, refl, sym, ap, ◌∙◌, arith, Bool, true, not, ◌&&◌, none, some, [], ◌∷◌,
  ◌++◌, length, length-append, length-drop, drop,
}
use phantom_tracker.Tools.Text.{Bytes, starts, find_after}

-- A text in which the key does not begin, also if the key follows.
unfoldable pub is_clear : Bytes → Bytes → Bool
is_clear key [] = true
is_clear key (c ∷ s) = not (starts key (c ∷ s ++ key)) && is_clear key s

starts-append_long : (key s r : Bytes) → length key ≤ length s → starts key (s ++ r) ≡ starts key s
unfolding starts
starts-append_long [] s r h = refl
starts-append_long (k ∷ key) [] r h = absurd (omega arith)
starts-append_long (k ∷ key) (c ∷ s) r h = ground (arith, starts-append_long key s r (omega arith))

starts-append : (key s r : Bytes) → starts key s ≡ true → starts key (s ++ r) ≡ true
unfolding starts
starts-append [] s r h = refl
starts-append (k ∷ key) [] r h = absurd (ground arith)
starts-append (k ∷ key) (c ∷ s) r h = ground (arith, starts-append key s r)

starts_self : (key r : Bytes) → starts key (key ++ r) ≡ true
unfolding starts
starts_self [] r = refl
starts_self (k ∷ key) r = ground (arith, starts_self key r)

drop-append : (key r : Bytes) → drop (length key) (key ++ r) ≡ r
drop-append [] r = refl
drop-append (k ∷ key) r = drop-append key r

find_after_self : (key r : Bytes) → find_after key (key ++ r) ≡ some r
unfolding find_after starts
find_after_self [] [] = refl
find_after_self [] (c ∷ r) = refl
find_after_self (k ∷ key) r = ground (arith, starts_self (k ∷ key) r, drop-append (k ∷ key) r)

pub append_assoc : (a b c : Bytes) → (a ++ b) ++ c ≡ a ++ (b ++ c)
append_assoc [] b c = refl
append_assoc (x ∷ a) b c = ap (λ (l : Bytes). x ∷ l) (append_assoc a b c)

starts_inside :
    (key m r : Bytes) (c : ℕ) → starts key (c ∷ (m ++ (key ++ r))) ≡ starts key (c ∷ (m ++ key))
starts_inside key m r c =
    ap (λ (l : Bytes). starts key (c ∷ l)) (sym (append_assoc m key r))
    ∙ starts-append_long key (c ∷ (m ++ key)) r (omega (arith, length-append m key))

-- Behind a clear text the key is found where it stands.
pub find_after-is_clear :
    (key m r : Bytes) → is_clear key m ≡ true → find_after key (m ++ (key ++ r)) ≡ some r
unfolding is_clear find_after
find_after-is_clear key [] r h = find_after_self key r
find_after-is_clear key (c ∷ m) r h =
    ground (arith, starts_inside key m r c, find_after-is_clear key m r)

-- In a clear text the key is not found.
pub find_after-none : (key m : Bytes) → key ≢ [] → is_clear key m ≡ true → find_after key m ≡ none
unfolding is_clear find_after starts
find_after-none [] m n h = absurd (n refl)
find_after-none (k ∷ key) [] n h = refl
find_after-none (k ∷ key) (c ∷ m) n h =
    ground (arith, find_after-none (k ∷ key) m n, starts-append (k ∷ key) (c ∷ m) (k ∷ key))

length-starts : (key s : Bytes) → starts key s ≡ true → length key ≤ length s
unfolding starts
length-starts [] s h = omega arith
length-starts (k ∷ key) [] h = absurd (ground arith)
length-starts (k ∷ key) (c ∷ s) h = ground (arith, length-starts key s)

-- What stands behind the key is shorter than the text by the key.
pub length-find_after :
    (key s r : Bytes) → find_after key s ≡ some r → length r + length key ≤ length s
unfolding find_after
length-find_after [] [] r h = ground arith
length-find_after (k ∷ key) [] r h = unfold starts in absurd (ground arith)
length-find_after key (c ∷ s) r h =
    ground (
      arith,
      length-find_after key s r,
      length-starts key (c ∷ s),
      length-drop (length key) (c ∷ s),
    )
