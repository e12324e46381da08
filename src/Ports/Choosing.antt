-- ===== src/Ports/Choosing.antt =====
-- `choose_port` of python/hmtl/portscan.py against the list of the ports.
use hmtl.Prelude.{
  ℕ, ◌+◌, ◌-◌, ◌≤◌, ◌<◌, ◌≡◌, inl, inr, List, [], ◌∷◌, length, get_elem?, get_elem?-lt, Option,
  none, some, Bool, Bool-cases, arith, ltb, leb, ◌&&◌, ◌||◌,
}
use Prim.Native.String.{String}
use text.Mathlib.Text.{◌==◌ as str_eq}
use hmtl.Ports.{Chosen, port, no_port, waits, raised, select, guess, on_number, ask, choose_port}

-- A port of the list, or none; never an exception.
abbrev pub IsListed : List String → Chosen → Type 0
IsListed ports (port p) = (i : ℕ) × (get_elem? ports i ≡ some p)
IsListed ports no_port = Unit
IsListed ports waits = Unit
IsListed ports (raised e) = ⊥

select-IsListed :
    (ports : List String) (n : ℕ) → 0 < n → n ≤ length ports → IsListed ports (select ports n)
unfolding select
select-IsListed ports n h k =
    let (p, e) = get_elem?-lt ports (n - 1) (omega arith) in rw e (n - 1, e)

module _ (search : String → String → Bool) (int : String → Option ℕ) where
  guess-bound :
      (i default n : ℕ) (ps : List String)
      → 0 < default
      → default ≤ n
      → i + length ps ≤ n
      → (0 < guess search int i default ps) × (guess search int i default ps ≤ n)
  unfolding guess
  guess-bound i default n [] h k b = (h, k)
  guess-bound i default n (p ∷ ps) h k b =
      elim (Bool-cases
        (search "(.*usbserial.*)" p || (search "(.*usbmodem.*)" p || search "(.*USBtoUART.*)" p))) [
          | inl m ↦
              rw m (guess-bound (i + 1) (i + 1) n ps (omega arith) (omega arith) (omega arith))
          | inr m ↦ rw m (guess-bound (i + 1) default n ps h k (omega arith))
        ]

  on_number-IsListed :
      (ports : List String) (num : Option ℕ) (rest : Chosen)
      → IsListed ports rest
      → IsListed ports (on_number search int ports num rest)
  unfolding on_number
  on_number-IsListed ports none rest h = h
  on_number-IsListed ports (some n) rest h = elim (Bool-cases (ltb 0 n && leb n (length ports))) [
    | inl b ↦ rw b (select-IsListed ports n (ground arith) (ground arith))
    | inr b ↦ rw b h
  ]

  ask-IsListed :
      (ports : List String) (default : ℕ) (typed : List (Option String))
      → 0 < default
      → default ≤ length ports
      → IsListed ports (ask search int ports default typed)
  unfolding ask
  ask-IsListed ports default [] h k = tt
  ask-IsListed ports default (none ∷ more) h k = tt
  ask-IsListed ports default (some val ∷ more) h k = elim (Bool-cases (str_eq val "")) [
    | inl b ↦ rw b (select-IsListed ports default h k)
    | inr b ↦ rw b (
        on_number-IsListed ports (int val) (ask search int ports default more)
          (ask-IsListed ports default more h k))
  ]

  -- The choice of a port returns one of the ports that there are, or None, or asks on; whatever is
  -- typed in, and whichever port is the default, it raises nothing.
  pub choose_port-IsListed :
      (ports : List String) (typed : List (Option String))
      → IsListed ports (choose_port search int ports typed)
  unfolding choose_port
  choose_port-IsListed [] typed = tt
  choose_port-IsListed (p ∷ []) typed = select-IsListed (p ∷ []) 1 (omega arith) (omega arith)
  choose_port-IsListed (p ∷ q ∷ ps) typed =
      let ports : List String = p ∷ q ∷ ps in
      let (above, below) =
        guess-bound 0 1 (length ports) ports (omega arith) (omega arith) (omega arith) in
      ask-IsListed ports (guess search int 0 1 ports) typed above below
