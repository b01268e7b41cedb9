-- ===== src/Loaders/CreateMaps/Kept.antt =====
-- pvsched-ebpf/host/ebpf/create_maps/create_maps.loader.c: what a load leaves pinned.
use phantom_tracker.Common.{ℕ, ◌≡◌, refl, ap, sym, ◌∙◌, true, Option, none, some, [], ◌⊎◌, inl, inr}
use phantom_tracker.Loaders.{Bpffs, Loader, map_or_new}
use phantom_tracker.Loaders.CreateMaps.Outcome.{Outcome, load-Outcome}
use phantom_tracker.Loaders.CreateMaps.{CreateAnswers, main}

-- What was pinned stays, with its contents.
pub record Keeps (f g : Bpffs) : Type 0 where
  pub vms : (f.vms ≡ none) ⊎ (g.vms ≡ f.vms)
  pub vcpus : (f.vcpus ≡ none) ⊎ (g.vcpus ≡ f.vcpus)
  pub map_registry : (f.map_registry ≡ none) ⊎ (g.map_registry ≡ f.map_registry)
  pub global_tracker_state : g.global_tracker_state ≡ f.global_tracker_state

-- The link and the three maps are pinned, those that were not there before as empty ones.
abbrev pub all_pinned : Bpffs → Bpffs
all_pinned f = record f {
  vms = some (map_or_new f.vms []);
  vcpus = some (map_or_new f.vcpus []);
  map_registry = some (map_or_new f.map_registry []);
  sched_switch_link = true;
}

-- How a run that begins with `l` ends.
pub data Loaded (l : Loader) : ℕ × Loader → Type 0 where
  failed :
      {l' : Loader}
      → l'.skels ≡ l.skels
      → l'.links ≡ l.links
      → Keeps l.files l'.files
      → Loaded l (1, l')
  loaded :
      {l' : Loader}
      → l'.skels ≡ l.skels
      → l'.links ≡ l.links
      → l'.files ≡ all_pinned l.files
      → Loaded l (0, l')

kept : {A : Type 0} (f g : Option A) → ((m : A) → f ≡ some m → g ≡ some m) → (f ≡ none) ⊎ (g ≡ f)
kept none g h = inl refl
kept (some m) g h = inr (h m refl)

Outcome-Keeps :
    {f : Bpffs} {skels links : ℕ} {out : ℕ × Loader}
    → Outcome f skels links out
    → Keeps f out.1.files
Outcome-Keeps o = record {
  vms = kept _ _ o.vms_kept;
  vcpus = kept _ _ o.vcpus_kept;
  map_registry = kept _ _ o.registry_kept;
  global_tracker_state = o.state_kept;
}

Outcome-pinned :
    {f : Bpffs} {skels links : ℕ} {out : ℕ × Loader}
    → Outcome f skels links out
    → out.0 ≡ 0
    → out.1.files ≡ all_pinned f
Outcome-pinned o e = λ i. record {
  vms = o.vms_pinned e i;
  vcpus = o.vcpus_pinned e i;
  map_registry = o.registry_pinned e i;
  global_tracker_state = o.state_kept i;
  sched_switch_link = o.attached e i;
}

Outcome-Loaded :
    (l : Loader) (out : ℕ × Loader) → Outcome l.files l.skels l.links out → Loaded l out
Outcome-Loaded l (n, l') o = elim o.code [
  | inl e ↦ coe 1 0 (i. Loaded l (e i, l')) (loaded o.skels_back o.links_back (Outcome-pinned o e))
  | inr e ↦ coe 1 0 (i. Loaded l (e i, l')) (failed o.skels_back o.links_back (Outcome-Keeps o))
]

-- Whatever fails, a load keeps every map that is pinned, with its contents, and gives back its
-- skeleton and its link. Where it ends with 0, the link is pinned, and each of the three maps is,
-- the one that was there before, or else an empty one.
pub main-Loaded : (a : CreateAnswers) (l : Loader) → Loaded l (main a l)
main-Loaded a l = Outcome-Loaded l (main a l) (load-Outcome a l)

-- The files after a load that ended with 0.
pub main-all_pinned :
    (a : CreateAnswers) (l l' : Loader) → main a l ≡ (0, l') → l'.files ≡ all_pinned l.files
main-all_pinned a l l' h =
    sym (ap (λ x. x.1.files) h) ∙ Outcome-pinned (load-Outcome a l) (ap (λ x. x.0) h)
