-- ===== src/Fault/Threads/Raising.antt =====
-- Setters of src/fault/knobs.cpp on several threads, where each of them turns a fault on.
use dariyanaap.Prelude.{
  ◌≡◌, refl, List, [], ◌∷◌, ◌++◌, Bool, true, false, ◌||◌, ◌∙◌, map, if◌then◌else◌, if_both,
  if_true,
}
use dariyanaap.Fault.Knobs.{Knobs}
use dariyanaap.Fault.Threads.{
  Op, store_latency, store_jitter, store_drop, store_hanging, insert_cut, erase_cut, clear_cuts,
  load_latency, load_drop, load_hanging, load_partition, store_any, changed, loaded, Call, latency,
  drop_probability, hang_forever, partition, heal, clear, ops, all_ops, Thread, thread, System,
  Step, takes, Reach, here, next,
}
use dariyanaap.Fault.Threads.Growing.{
  is_last, Grows, changed-Grows, Raises, Raises-Grows, AllOn, all_ops-Raises,
}

-- What is left of a thread ends in storing the gate; where nothing is left, the gate is open.
abbrev Finishes : List Op → Knobs → Type 0
Finishes [] k = k.any ≡ true
Finishes (op ∷ []) k = is_last op ≡ true
Finishes (op ∷ o ∷ code) k = Finishes (o ∷ code) k

Finishes-open :
    (code : List Op) (k l : Knobs)
    → (k.any ≡ true → l.any ≡ true)
    → Finishes code k
    → Finishes code l
Finishes-open [] k l h f = h f
Finishes-open (op ∷ []) k l h f = f
Finishes-open (op ∷ o ∷ code) k l h f = Finishes-open (o ∷ code) k l h f

changed-any :
    (op : Op) (reg : Bool) (k : Knobs)
    → (changed op reg k).any ≡ (if is_last op then reg else k.any)
unfolding changed
changed-any store_any reg k = refl
changed-any (store_latency n) reg k = refl
changed-any (store_jitter n) reg k = refl
changed-any (store_drop n) reg k = refl
changed-any (store_hanging b) reg k = refl
changed-any (insert_cut cut) reg k = refl
changed-any (erase_cut cut) reg k = refl
changed-any clear_cuts reg k = refl
changed-any load_latency reg k = refl
changed-any load_drop reg k = refl
changed-any load_hanging reg k = refl
changed-any load_partition reg k = refl

-- A gate that is open stays open, and the last step of a thread opens it.
stays-open :
    (op : Op) (reg : Bool) (k : Knobs)
    → (is_last op ≡ true → reg ≡ true)
    → k.any ≡ true
    → (changed op reg k).any ≡ true
stays-open op reg k stores h =
    changed-any op reg k ∙ if_both (λ b. b ≡ true) (is_last op) reg k.any stores (λ _. h)

last-opens :
    (op : Op) (reg : Bool) (k : Knobs)
    → (is_last op ≡ true → reg ≡ true)
    → is_last op ≡ true
    → (changed op reg k).any ≡ true
last-opens op reg k stores last =
    changed-any op reg k ∙ if_true (is_last op) reg k.any last ∙ stores last

abbrev Holds : Knobs → Thread → Type 0
Holds k t = Raises t.code t.reg k × Finishes t.code k

abbrev AllHold : Knobs → List Thread → Type 0
AllHold k [] = Unit {0}
AllHold k (t ∷ ts) = Holds k t × AllHold k ts

AllHold-Grows :
    (k l : Knobs) (ts : List Thread)
    → Grows k l
    → (k.any ≡ true → l.any ≡ true)
    → AllHold k ts
    → AllHold l ts
AllHold-Grows k l [] g h all = tt
AllHold-Grows k l (t ∷ ts) g h ((r, f), all) = (
  (Raises-Grows t.code t.reg t.reg k l (λ e. e) g r, Finishes-open t.code k l h f),
  AllHold-Grows k l ts g h all,
)

AllHold-at :
    (k : Knobs) (before after : List Thread) (t : Thread)
    → AllHold k (before ++ t ∷ after)
    → Holds k t
AllHold-at k [] after t (h, all) = h
AllHold-at k (b ∷ before) after t (h, all) = AllHold-at k before after t all

-- The knobs grow while one thread goes on.
AllHold-goes :
    (k l : Knobs) (before after : List Thread) (t u : Thread)
    → Grows k l
    → (k.any ≡ true → l.any ≡ true)
    → Holds l u
    → AllHold k (before ++ t ∷ after)
    → AllHold l (before ++ u ∷ after)
AllHold-goes k l [] after t u g h new (old, all) = (new, AllHold-Grows k l after g h all)
AllHold-goes k l (b ∷ before) after t u g h new ((r, f), all) = (
  (Raises-Grows b.code b.reg b.reg k l (λ e. e) g r, Finishes-open b.code k l h f),
  AllHold-goes k l before after t u g h new all,
)

Finishes-rest :
    (op : Op) (code : List Op) (reg : Bool) (k : Knobs)
    → (is_last op ≡ true → reg ≡ true)
    → Finishes (op ∷ code) k
    → Finishes code (changed op reg k)
Finishes-rest op [] reg k stores f = last-opens op reg k stores f
Finishes-rest op (o ∷ code) reg k stores f =
    Finishes-open (o ∷ code) k (changed op reg k) (stays-open op reg k stores) f

Step-AllHold : {s u : System} → Step s u → AllHold s.knobs s.threads → AllHold u.knobs u.threads
Step-AllHold (takes k before after op code reg) all =
    let ((on, (stores, rest)), f) =
      AllHold-at k before after (record { code = op ∷ code; reg = reg }) all in
    AllHold-goes k (changed op reg k) before after (record { code = op ∷ code; reg = reg })
      (record { code = code; reg = loaded op reg k }) (changed-Grows op reg k on)
      (stays-open op reg k stores) (rest, Finishes-rest op code reg k stores f) all

Reach-AllHold : {s u : System} → AllHold s.knobs s.threads → Reach s u → AllHold u.knobs u.threads
Reach-AllHold h here = h
Reach-AllHold h (next r st) = Step-AllHold st (Reach-AllHold h r)

-- The threads, each with the calls it makes: a first and the rest.
abbrev pub system : Knobs → List (Call × List Call) → System
system k calls = record { knobs = k; threads = map (λ c. thread (c.0 ∷ c.1)) calls }

abbrev pub AllTurnOn : List (Call × List Call) → Type 0
AllTurnOn [] = Unit {0}
AllTurnOn ((call, rest) ∷ calls) = AllOn (call ∷ rest) × AllTurnOn calls

abbrev pub is_done : List Op → Bool
is_done [] = true
is_done (op ∷ code) = false

-- Whether a thread is through with its calls.
abbrev pub one_finished : List Thread → Bool
one_finished [] = false
one_finished (t ∷ ts) = is_done t.code || one_finished ts

ops-Finishes :
    (call : Call) (rest : List Op) (k : Knobs)
    → Finishes (store_any ∷ rest) k
    → Finishes (ops call ++ rest) k × Finishes (store_any ∷ ops call ++ rest) k
unfolding ops
ops-Finishes (latency mean jitter) rest k h = (h, h)
ops-Finishes (drop_probability ppm) rest k h = (h, h)
ops-Finishes (hang_forever b) rest k h = (h, h)
ops-Finishes (partition cut) rest k h = (h, h)
ops-Finishes (heal cut) rest k h = (h, h)
ops-Finishes clear rest k h = (h, h)

all_ops-Finishes : (calls : List Call) (k : Knobs) → Finishes (store_any ∷ all_ops calls) k
unfolding all_ops
all_ops-Finishes [] k = refl
all_ops-Finishes (call ∷ calls) k =
    (ops-Finishes call (all_ops calls) k (all_ops-Finishes calls k)).1

system-AllHold :
    (k : Knobs) (calls : List (Call × List Call))
    → AllTurnOn calls
    → AllHold k (map (λ c. thread (c.0 ∷ c.1)) calls)
unfolding all_ops
system-AllHold k [] h = tt
system-AllHold k ((call, rest) ∷ calls) (on, h) = (
  (
    all_ops-Raises (call ∷ rest) false k on,
    (ops-Finishes call (all_ops rest) k (all_ops-Finishes rest k)).0,
  ),
  system-AllHold k calls h,
)

AllHold-open : (k : Knobs) (ts : List Thread) → AllHold k ts → one_finished ts ≡ true → k.any ≡ true
AllHold-open k [] all h = absurd (cc)
AllHold-open k (t ∷ ts) ((r, f), all) h = go t.code (AllHold-open k ts all) f h
  where
    go :
        (code : List Op)
        → (one_finished ts ≡ true → k.any ≡ true)
        → Finishes code k
        → (is_done code || one_finished ts) ≡ true
        → k.any ≡ true
    go [] others f h = f
    go (op ∷ code) others f h = others h

-- Any number of threads, each of which makes any calls that turn a fault on: in every interleaving of
-- their loads and stores, from whatever state of the knobs, the gate is open as soon as one of the
-- threads is through, and whatever the others are at.
pub finished-open :
    (k : Knobs) (calls : List (Call × List Call)) {s : System}
    → AllTurnOn calls
    → Reach (system k calls) s
    → one_finished s.threads ≡ true
    → s.knobs.any ≡ true
finished-open k calls {s = s} on r h =
    AllHold-open s.knobs s.threads (Reach-AllHold (system-AllHold k calls on) r) h
