-- ===== src/Tests/Processes.antt =====
-- A process with a small memory, for the programs of the kernel.
use mcpfz_probe.Base.{
  ℕ, zero, suc, ◌+◌, ◌*◌, ◌-◌, ◌^◌, ◌<◌, ◌≤◌, ◌≡◌, ◌≢◌, refl, ap, sym, ◌∙◌, Option, none, some,
  List, [], ◌∷◌, ◌++◌, length, length-append, take, drop, arith, ◌==◌, if◌then◌else◌, All,
}
use mathlib.Core.Path.{subst}
use mcpfz_probe.Base.Utf8.{as_bytes}
use mcpfz_probe.Kernel.{Context, zeros_12}
use mcpfz_probe.Kernel.Sound.{IsSound, length-drop}
use mcpfz_probe.Kernel.Memory.{PointsTo, Runs, copied}
use mcpfz_probe.Tests.Samples.{sample_json}

-- What memory holds before a record is written.
abbrev pub junk : ℕ → List ℕ
junk zero = []
junk (suc n) = 0xaa ∷ junk n

length-junk : (n : ℕ) → length (junk n) ≡ n
length-junk zero = refl
length-junk (suc n) = ap suc (length-junk n)

abbrev pub node : List ℕ
unfolding as_bytes
node = as_bytes "node" ++ zeros_12

-- A list of a given length, filled up with zeros.
abbrev pub fitted : ℕ → List ℕ → List ℕ
fitted zero bytes = []
fitted (suc n) [] = 0 ∷ fitted n []
fitted (suc n) (b ∷ bytes) = b ∷ fitted n bytes

length-fitted : (n : ℕ) (bytes : List ℕ) → length (fitted n bytes) ≡ n
length-fitted zero bytes = refl
length-fitted (suc n) [] = ap suc (length-fitted n [])
length-fitted (suc n) (b ∷ bytes) = ap suc (length-fitted n bytes)

fitted-All :
    (n : ℕ) (bytes : List ℕ) → All (λ b. b < 256) bytes → All (λ b. b < 256) (fitted n bytes)
fitted-All zero bytes h = tt
fitted-All (suc n) [] h = (omega arith, fitted-All n [] tt)
fitted-All (suc n) (b ∷ bytes) h = (h.0, fitted-All n bytes h.1)

drop-All : (n : ℕ) (bytes : List ℕ) → All (λ b. b < 256) bytes → All (λ b. b < 256) (drop n bytes)
drop-All zero bytes h = h
drop-All (suc n) [] h = tt
drop-All (suc n) (b ∷ bytes) h = drop-All n bytes h.1

-- A text where it is read, into a buffer that may be empty.
abbrev pub copied_into : (text buffer : List ℕ) → List ℕ
copied_into t [] = []
copied_into t (b ∷ rest) = copied t (b ∷ rest)

length-take_le : (n : ℕ) (xs : List ℕ) → length (take n xs) ≤ n
length-take_le zero xs = omega arith
length-take_le (suc n) [] = omega arith
length-take_le (suc n) (x ∷ xs) = omega (arith, length-take_le n xs)

length-copied_into : (t buffer : List ℕ) → length (copied_into t buffer) ≡ length buffer
length-copied_into t [] = refl
length-copied_into t (b ∷ rest) =
    let front = take (length (b ∷ rest) - 1) t in
    let short = length-take_le (length (b ∷ rest) - 1) t in
    let back = length-drop (length front + 1) (b ∷ rest) (omega (arith, short)) in
    length-append front (0 ∷ drop (length front + 1) (b ∷ rest)) ∙ omega (arith, back)

copied_into-copied :
    (t buffer : List ℕ) → 0 < length buffer → copied_into t buffer ≡ copied t buffer
copied_into-copied t [] h = absurd (omega (arith, h))
copied_into-copied t (b ∷ rest) h = refl

-- The arguments of the call: 16, 4096, `O_WRONLY|O_CREAT|O_TRUNC`, and 4096 again.
abbrev pub word_at : ℕ → Option ℕ
word_at offset =
    if offset == 16
    then some 16
    else if offset == 24
    then some 4096
    else if offset == 32
    then some 0o1101
    else if offset == 48
    then some 4096
    else none

word_at-lt : (offset word : ℕ) → word_at offset ≡ some word → word < 2 ^ 64
word_at-lt offset word e = ground arith

-- A process that runs `node`; its memory holds one text, and from 4096 on an address.
abbrev pub process : (text address : List ℕ) → Context
process t address = record {
  read_at = word_at;
  pid_tgid = 4242 * 2 ^ 32 + 4243;
  current_comm = some node;
  read_user = λ size a. some (fitted size (drop (a - 4096) address));
  read_user_str = λ a buffer. copied_into t buffer;
  reserve = λ size. some (junk size);
}

some_is : {x y : List ℕ} → some x ≡ some y → x ≡ y
some_is e = cc

pub process-IsSound :
    (t address : List ℕ) → All (λ b. b < 256) address → IsSound (process t address)
unfolding node
process-IsSound t address small = record {
  words = word_at-lt;
  ids = omega arith;
  comms = λ c e. ap length (sym (some_is e));
  sizes =
      λ size a bytes e. ap length (sym (some_is e)) ∙ length-fitted size (drop (a - 4096) address);
  user_bytes = λ size a bytes e.
      subst (λ b. All (λ n. n < 256) b) (some_is e)
        (fitted-All size (drop (a - 4096) address) (drop-All (a - 4096) address small));
  buffers = λ a buffer. length-copied_into t buffer;
  entries = λ size memory e. ap length (sym (some_is e)) ∙ length-junk size;
}

pub process-PointsTo :
    (t address : List ℕ) (a : ℕ) → All (λ b. b ≢ 0) t → PointsTo (process t address) a t
process-PointsTo t address a free = record {
  no_nul = free;
  read = λ buffer h. copied_into-copied t buffer h;
}

pub process-Runs : (t address : List ℕ) → Runs (process t address) "node"
unfolding node as_bytes
process-Runs t address = (node, refl, (omega arith, (drop 1 zeros_12, refl)))

-- A `sockaddr_in` for port 443 of 203.0.113.7, and an address of `AF_UNIX`.
abbrev pub https : List ℕ
https = 2 ∷ 0 ∷ 1 ∷ 187 ∷ 203 ∷ 0 ∷ 113 ∷ 7 ∷ []

abbrev pub local : List ℕ
local = 1 ∷ 0 ∷ []

abbrev pub shell : Context
unfolding as_bytes
shell = process (as_bytes "/bin/sh") https

pub shell-IsSound : IsSound shell
unfolding shell
shell-IsSound = process-IsSound (as_bytes "/bin/sh") https (omega arith)

pub shell-PointsTo : (a : ℕ) → PointsTo shell a (as_bytes "/bin/sh")
unfolding as_bytes
shell-PointsTo a = process-PointsTo (as_bytes "/bin/sh") https a (omega arith)
