-- ===== src/Tracker/History/Located.antt =====
-- Where create_maps.bpf.c and timer.bpf.c find a VM and its two buffers, and what a write to either
-- map does to it.
use phantom_tracker.Common.{
  ◌≡◌, ◌≢◌, sym, arith, some, List, lookup, modify, lookup-modify_self, lookup-modify_ne,
  lookup-modify_inv,
}
use phantom_tracker.Tracker.State.{Name, Name-discrete, Vm, Buffer}
use phantom_tracker.Tracker.Keys.{digit_1, digit_2, collection_key}

-- No buffer of the other VM has the key of a buffer of this one.
abbrev pub Apart : Name → Name → Type 0
Apart other name =
    ((collection_key digit_1 other ≢ collection_key digit_1 name)
      × (collection_key digit_1 other ≢ collection_key digit_2 name))
    × ((collection_key digit_2 other ≢ collection_key digit_1 name)
        × (collection_key digit_2 other ≢ collection_key digit_2 name))

-- The VM and its buffers are in the maps, under keys of their own.
pub record Located (name : Name) (vms : List (Name × Vm)) (registry : List (Name × Buffer))
    (vm : Vm) (buff_1 buff_2 : Buffer) : Type 0 where
  pub found : lookup Name-discrete name vms ≡ some vm
  pub one : lookup Name-discrete (collection_key digit_1 name) registry ≡ some buff_1
  pub two : lookup Name-discrete (collection_key digit_2 name) registry ≡ some buff_2
  pub own : collection_key digit_1 name ≢ collection_key digit_2 name
  pub apart :
      (other : Name) (v : Vm)
      → lookup Name-discrete other vms ≡ some v
      → other ≢ name
      → Apart other name

module _ (name : Name) (vms : List (Name × Vm)) (registry : List (Name × Buffer)) (vm : Vm)
    (buff_1 buff_2 : Buffer) (l : Located name vms registry vm buff_1 buff_2) where
  kept-Apart :
      (key : Name) (f : Vm → Vm) (other : Name) (v : Vm)
      → lookup Name-discrete other (modify Name-discrete key f vms) ≡ some v
      → other ≢ name
      → Apart other name
  kept-Apart key f other v e ne =
      let (u, old, form) = lookup-modify_inv Name-discrete key other f vms v e in
      l.apart other u old ne

  -- A write to the VM.
  pub vm-Located :
      (f : Vm → Vm) → Located name (modify Name-discrete name f vms) registry (f vm) buff_1 buff_2
  vm-Located f = record {
    found = ground (arith, lookup-modify_self Name-discrete name f vms, l.found);
    one = l.one;
    two = l.two;
    own = l.own;
    apart = kept-Apart name f;
  }

  -- A write to another VM.
  pub other-Located :
      (other : Name) (f : Vm → Vm)
      → other ≢ name
      → Located name (modify Name-discrete other f vms) registry vm buff_1 buff_2
  other-Located other f ne = record {
    found = ground (arith, lookup-modify_ne Name-discrete other name f vms ne, l.found);
    one = l.one;
    two = l.two;
    own = l.own;
    apart = kept-Apart other f;
  }

  -- A write to the first buffer.
  pub one-Located :
      (g : Buffer → Buffer)
      → Located name vms
          (modify Name-discrete (collection_key digit_1 name) g registry)
          vm
          (g buff_1)
          buff_2
  one-Located g = record {
    found = l.found;
    one =
        ground
          (arith, lookup-modify_self Name-discrete (collection_key digit_1 name) g registry, l.one);
    two = ground (
      arith,
      lookup-modify_ne Name-discrete (collection_key digit_1 name) (collection_key digit_2 name) g
          registry l.own,
      l.two,
    );
    own = l.own;
    apart = l.apart;
  }

  -- A write to the second one.
  pub two-Located :
      (g : Buffer → Buffer)
      → Located name vms
          (modify Name-discrete (collection_key digit_2 name) g registry)
          vm
          buff_1
          (g buff_2)
  two-Located g = record {
    found = l.found;
    one = ground (
      arith,
      lookup-modify_ne Name-discrete (collection_key digit_2 name) (collection_key digit_1 name) g
          registry (λ e. l.own (sym e)),
      l.one,
    );
    two =
        ground
          (arith, lookup-modify_self Name-discrete (collection_key digit_2 name) g registry, l.two);
    own = l.own;
    apart = l.apart;
  }

  -- A write to a buffer of another VM.
  pub elsewhere-Located :
      (key : Name) (g : Buffer → Buffer)
      → key ≢ collection_key digit_1 name
      → key ≢ collection_key digit_2 name
      → Located name vms (modify Name-discrete key g registry) vm buff_1 buff_2
  elsewhere-Located key g not_1 not_2 = record {
    found = l.found;
    one = ground (arith, lookup-modify_ne Name-discrete key _ g registry not_1, l.one);
    two = ground (arith, lookup-modify_ne Name-discrete key _ g registry not_2, l.two);
    own = l.own;
    apart = l.apart;
  }
