-- ===== src/Loaders/IdleAvg.antt =====
-- pvsched-ebpf/host/ebpf/idle_avg/global_running_tracker.loader.c: the loader of the idle average. It
-- keeps a state that is already pinned.
use phantom_tracker.Common.{
  ℕ, ◌+◌, ◌-◌, ◌≡◌, refl, sym, arith, Bool, true, false, not, ◌&&◌, Option, none, some,
  if◌then◌else◌, bit, pos, inl, inr, ap, ◌∙◌, ◌⊎◌, Bool-cases,
}
use phantom_tracker.Tracker.State.{GlobalState}
use phantom_tracker.Loaders.{
  Bpffs, Loader, bpf_obj_get, is_some, reuse_fd, map_or_new, bpf_obj_pin, Names, get-Names,
}

-- `num_cpus` is what `libbpf_num_possible_cpus` returns, none for an error.
pub record IdleAnswers : Type 0 where
  pub open_skel : Bool
  pub get_state : Bool
  pub reuse_state : Bool
  pub load : Bool
  pub num_cpus : Option ℕ
  pub update_state : Bool
  pub attach : Bool
  pub pin_state : Bool

-- The entry of a new array map, and what the loader stores in it.
abbrev pub zero_state : GlobalState
zero_state = record {
  global_runnx_count = pos 0;
  collection_buff_1_index = 0;
  collection_buff_2_index = 0;
  is_collectx_in_buff_1 = 0;
  nb_cpus = 0;
  last_idle_avg = 0;
  global_runnx_avg = 0;
}

abbrev pub init_state : ℕ → GlobalState
init_state nb_cpus = record zero_state { nb_cpus = nb_cpus }

-- The loader exits, or it polls the state until a signal arrives.
pub data Ended : Type 0 where
  exited : ℕ → Loader → Ended
  polling : Loader → Ended

unfoldable pub cleanup_skel : Loader → Ended
cleanup_skel l = exited 1 (record l { skels = l.skels - 1 })

-- The handler of SIGINT and SIGTERM.
unfoldable pub cleanup : Ended → Ended
cleanup (exited ret l) = exited ret l
cleanup (polling l) = exited 0 (record l { skels = l.skels - 1 })

module _ (a : IdleAnswers) where
  -- From the attached program on; a reused map is left alone.
  unfoldable pub pin_state : Option GlobalState → ℕ → Loader → Ended
  unfolding cleanup_skel
  pin_state none nb_cpus l =
      let (pinned, file) =
        bpf_obj_pin a.pin_state l.files.global_tracker_state (init_state nb_cpus) in
      let l' = record l { files = record l.files { global_tracker_state = file } } in
      if not a.update_state
      then cleanup_skel l
      else if not a.attach
      then cleanup_skel l
      else if not pinned
      then cleanup_skel l'
      else polling l'
  pin_state (some g) nb_cpus l = if not a.attach then cleanup_skel l else polling l

  unfoldable pub count_cpus : Option ℕ → Option GlobalState → Loader → Ended
  unfolding pin_state cleanup_skel
  count_cpus none fd l = cleanup_skel l
  count_cpus (some nb_cpus) fd l = pin_state fd nb_cpus l

  unfoldable pub main : Loader → Ended
  unfolding count_cpus cleanup_skel
  main l =
      let fd = bpf_obj_get a.get_state l.files.global_tracker_state in
      let l' = record l { skels = l.skels + 1; fds = l.fds + bit (is_some fd) } in
      if not a.open_skel
      then exited 1 l
      else if not (reuse_fd fd a.reuse_state && a.load)
      then cleanup_skel l'
      else count_cpus a.num_cpus fd l'

-- How a run over the files `f` ends: on every error the files are as they were, and the skeleton is gone; a run that polls has pinned the state that it works on.
pub data Outcome (skels : ℕ) (f : Bpffs) (count : Option ℕ) : Ended → Type 0 where
  gave_up : {l : Loader} → l.skels ≡ skels → l.files ≡ f → Outcome skels f count (exited 1 l)
  runs :
      {l : Loader} (nb_cpus : ℕ)
      → count ≡ some nb_cpus
      → l.skels ≡ skels + 1
      → l.files ≡ record f {
        global_tracker_state =
            some (map_or_new f.global_tracker_state (record zero_state { nb_cpus = nb_cpus }));
      }
      → Outcome skels f count (polling l)

bpf_obj_pin-cases :
    (answer : Bool) (file : Option GlobalState) (m : GlobalState)
    → (bpf_obj_pin answer file m ≡ (false, file))
      ⊎ ((bpf_obj_pin answer file m ≡ (true, some (map_or_new file m))))
bpf_obj_pin-cases true none m = inr refl
bpf_obj_pin-cases false none m = inl refl
bpf_obj_pin-cases answer (some old) m = inl refl

polls :
    {skels : ℕ} {f : Bpffs} {count : Option ℕ} {l : Loader}
    → Outcome skels f count (polling l)
    → (n : ℕ) × (l.files ≡ record f {
      global_tracker_state = some (map_or_new f.global_tracker_state (init_state n));
    })
polls (runs n c s e) = (n, e)

module _ (a : IdleAnswers) (skels : ℕ) (f : Bpffs) (count : Option ℕ) where
  cleanup_skel-Outcome :
      (l : Loader) → l.skels ≡ skels + 1 → l.files ≡ f → Outcome skels f count (cleanup_skel l)
  unfolding cleanup_skel
  cleanup_skel-Outcome l s e = gave_up (omega arith) e

  kept :
      (g : GlobalState) (nb_cpus : ℕ)
      → Names (some g) f.global_tracker_state
      → f ≡ record f {
        global_tracker_state = some (map_or_new f.global_tracker_state (init_state nb_cpus));
      }
  kept g nb_cpus names = ground (arith, names)

  pin_state-Outcome :
      (fd : Option GlobalState) (nb_cpus : ℕ) (l : Loader)
      → l.skels ≡ skels + 1
      → l.files ≡ f
      → Names fd f.global_tracker_state
      → count ≡ some nb_cpus
      → Outcome skels f count (pin_state a fd nb_cpus l)
  unfolding pin_state cleanup_skel
  pin_state-Outcome none nb_cpus l s e names c = elim (Bool-cases a.update_state) [
    | inr e1 ↦ rw e1 (cleanup_skel-Outcome l s e)
    | inl e1 ↦ elim (Bool-cases a.attach) [
      | inr e2 ↦ rw (e1, e2) (cleanup_skel-Outcome l s e)
      | inl e2 ↦
          elim (bpf_obj_pin-cases a.pin_state l.files.global_tracker_state (init_state nb_cpus)) [
            | inl refused ↦ rw (e1, e2, refused) (cleanup_skel-Outcome l s e)
            | inr pinned ↦
                rw (e1, e2, pinned)
                  (runs nb_cpus c s (
                    ap
                      (λ (g : Bpffs). record g {
                        global_tracker_state =
                            some (map_or_new g.global_tracker_state (init_state nb_cpus));
                      })
                      e))
          ]
    ]
  ]
  pin_state-Outcome (some g) nb_cpus l s e names c = elim (Bool-cases a.attach) [
    | inr no_attach ↦ rw no_attach (cleanup_skel-Outcome l s e)
    | inl attached ↦ rw attached (runs nb_cpus c s (e ∙ kept g nb_cpus names))
  ]

  count_cpus-Outcome :
      (n : Option ℕ) (g : Option GlobalState) (l : Loader)
      → l.skels ≡ skels + 1
      → l.files ≡ f
      → Names g f.global_tracker_state
      → n ≡ count
      → Outcome skels f count (count_cpus a n g l)
  unfolding count_cpus
  count_cpus-Outcome none g l s e names c = cleanup_skel-Outcome l s e
  count_cpus-Outcome (some n) g l s e names c = pin_state-Outcome g n l s e names (sym c)

pub main-Outcome : (a : IdleAnswers) (l : Loader) → Outcome l.skels l.files a.num_cpus (main a l)
unfolding main
main-Outcome a l =
    let fd = bpf_obj_get a.get_state l.files.global_tracker_state in
    let l' = record l { skels = l.skels + 1; fds = l.fds + bit (is_some fd) } in
    elim (Bool-cases a.open_skel) [
      | inr e1 ↦ rw e1 (gave_up refl refl)
      | inl e1 ↦ elim (Bool-cases (reuse_fd fd a.reuse_state && a.load)) [
        | inr e2 ↦ rw (e1, e2) (cleanup_skel-Outcome a l.skels l.files a.num_cpus l' refl refl)
        | inl e2 ↦
            rw (e1, e2)
              (count_cpus-Outcome a l.skels l.files a.num_cpus a.num_cpus fd l' refl refl
                (get-Names a.get_state l.files.global_tracker_state) refl)
      ]
    ]

pub main-polling :
    (a : IdleAnswers) (l l' : Loader)
    → main a l ≡ polling l'
    → (n : ℕ) × (l'.files ≡ record l.files {
      global_tracker_state = some (map_or_new l.files.global_tracker_state (init_state n));
    })
main-polling a l l' h =
    polls (coe 0 1 (i. Outcome l.skels l.files a.num_cpus (h i)) (main-Outcome a l))
