-- ===== src/Driver/Program/Args.antt =====
-- The command line of linux/uio/accel_mmio_demo.c.
use risc_v_computer_zybo.Base.{
  Bool, true, false, ◌&&◌, Option, none, some, List, [], ◌∷◌, ◌==◌, codes, ◌++◌, ◌∙◌, if◌then◌else◌,
  ◌≡◌, refl,
}
use risc_v_computer_zybo.Driver.{FilePath}

-- The locals of `main` that the arguments set.
pub record Settings : Type 0 where
  pub uio_path : FilePath
  pub pbm_path : Option FilePath
  pub use_irq : Bool
  pub emulate : Bool

abbrev pub default_settings : Settings
default_settings = record {
  uio_path = codes "/dev/uio0";
  pbm_path = none;
  use_irq = false;
  emulate = false;
}

-- `strcmp(s, t) == 0`
unfoldable pub str_eq : FilePath → FilePath → Bool
str_eq [] [] = true
str_eq [] (_ ∷ _) = false
str_eq (_ ∷ _) [] = false
str_eq (c ∷ s) (d ∷ t) = c == d && str_eq s t

-- What an argument asks for.
pub data Flag : Type 0 where
  irq pbm emulated device : Flag

unfoldable pub flag_of : FilePath → Flag
flag_of arg =
    if str_eq arg (codes "--irq")
    then Flag.irq
    else if str_eq arg (codes "--pbm")
    then Flag.pbm
    else if str_eq arg (codes "--emulate")
    then Flag.emulated
    else Flag.device

-- The loop over the arguments after the first; `none` if --pbm has no path after it.
unfoldable pub parse_args : List FilePath → Settings → Option Settings
parse_args [] o = some o
parse_args (arg ∷ []) o = elim (flag_of arg) [
  | irq ↦ some (record o { use_irq = true })
  | pbm ↦ none
  | emulated ↦ some (record o { emulate = true })
  | device ↦ some (record o { uio_path = arg })
]
parse_args (arg ∷ path ∷ rest) o = elim (flag_of arg) [
  | irq ↦ parse_args (path ∷ rest) (record o { use_irq = true })
  | pbm ↦ parse_args rest (record o { pbm_path = some path })
  | emulated ↦ parse_args (path ∷ rest) (record o { emulate = true })
  | device ↦ parse_args (path ∷ rest) (record o { uio_path = arg })
]

-- An option as it is meant: a device path is none of the three flags.
pub data Choice : Type 0 where
  with_irq with_emulation : Choice
  with_pbm with_device : FilePath → Choice

abbrev pub words : Choice → List FilePath
words with_irq = codes "--irq" ∷ []
words with_emulation = codes "--emulate" ∷ []
words (with_pbm path) = codes "--pbm" ∷ path ∷ []
words (with_device path) = path ∷ []

abbrev pub set_choice : Choice → Settings → Settings
set_choice with_irq o = record o { use_irq = true }
set_choice with_emulation o = record o { emulate = true }
set_choice (with_pbm path) o = record o { pbm_path = some path }
set_choice (with_device path) o = record o { uio_path = path }

abbrev pub IsMeant : Choice → Type 0
IsMeant (with_device path) = flag_of path ≡ Flag.device
IsMeant _ = Unit

pub data AllMeant : List Choice → Type 0 where
  no_choices : AllMeant []
  more_choices : {c : Choice} {cs : List Choice} → IsMeant c → AllMeant cs → AllMeant (c ∷ cs)

-- The arguments for some options, before others.
unfoldable pub command_line : List Choice → List FilePath → List FilePath
command_line [] after = after
command_line (c ∷ cs) after = words c ++ command_line cs after

unfoldable pub set_all : List Choice → Settings → Settings
set_all [] o = o
set_all (c ∷ cs) o = set_all cs (set_choice c o)

-- One argument that takes no path, whatever follows it.
irq_first :
    (rest : List FilePath) (o : Settings)
    → parse_args (codes "--irq" ∷ rest) o ≡ parse_args rest (record o { use_irq = true })
unfolding parse_args flag_of str_eq
irq_first [] o = refl
irq_first (_ ∷ _) o = refl

emulate_first :
    (rest : List FilePath) (o : Settings)
    → parse_args (codes "--emulate" ∷ rest) o ≡ parse_args rest (record o { emulate = true })
unfolding parse_args flag_of str_eq
emulate_first [] o = refl
emulate_first (_ ∷ _) o = refl

device_first :
    (path : FilePath) (rest : List FilePath) (o : Settings)
    → flag_of path ≡ Flag.device
    → parse_args (path ∷ rest) o ≡ parse_args rest (record o { uio_path = path })
unfolding parse_args
device_first path [] o h = rw (h, parse_args) refl
device_first path (_ ∷ _) o h = rw (h, parse_args) refl

pbm_first :
    (path : FilePath) (rest : List FilePath) (o : Settings)
    → parse_args (codes "--pbm" ∷ path ∷ rest) o
      ≡ parse_args rest (record o { pbm_path = some path })
unfolding parse_args flag_of str_eq
pbm_first path rest o = refl

parse_args-before :
    (cs : List Choice) (after : List FilePath) (o : Settings)
    → AllMeant cs
    → parse_args (command_line cs after) o ≡ parse_args after (set_all cs o)
unfolding command_line set_all
parse_args-before [] after o no_choices = refl
parse_args-before (with_irq ∷ cs) after o (more_choices m ms) =
    irq_first (command_line cs after) o ∙ parse_args-before cs after (set_choice with_irq o) ms
parse_args-before (with_emulation ∷ cs) after o (more_choices m ms) =
    emulate_first (command_line cs after) o
    ∙ parse_args-before cs after (set_choice with_emulation o) ms
parse_args-before (with_pbm path ∷ cs) after o (more_choices m ms) =
    pbm_first path (command_line cs after) o
    ∙ parse_args-before cs after (set_choice (with_pbm path) o) ms
parse_args-before (with_device path ∷ cs) after o (more_choices m ms) =
    device_first path (command_line cs after) o m
    ∙ parse_args-before cs after (set_choice (with_device path) o) ms

-- The arguments that stand for some options set these, in order, so the last of a kind counts; with
-- a last --pbm that has no path after it the command line is refused.
pub parse_args-command_line :
    (cs : List Choice) (dangling : Bool) (o : Settings)
    → AllMeant cs
    → parse_args (command_line cs (if dangling then codes "--pbm" ∷ [] else [])) o
      ≡ (if dangling then none else some (set_all cs o))
unfolding parse_args flag_of str_eq
parse_args-command_line cs true o m = parse_args-before cs (codes "--pbm" ∷ []) o m
parse_args-command_line cs false o m = parse_args-before cs [] o m
