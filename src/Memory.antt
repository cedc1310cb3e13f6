-- ===== src/Memory.antt =====
-- The static data of v2.0.0/inifile.c: the two halves of the string pool, the arrays of files,
-- sections and keys, and the disk behind them; and the monad in which the functions run.
-- An array is a function of the index, a pointer to a node is its index, and a `char *` into the
-- pool is the half and the offset in it.
use mathlib.Core.Option
pub mod Preserves
use ini.Base.{Bool, Bytes, List, Option, [], none, some, suc, update, zero, ℕ, ◌∷◌}

-- INI_FILE_MEMORY_POOL_INTI and INI_FILE_MEMORY_POOL_BACK.
pub data Half : Type 0 where
  inti back : Half

pub record CharPtr : Type 0 where
  pub half : Half
  pub off : ℕ

-- MEMORY_POOL. `ready` is `current != NULL`: the pointer is set once, by `ini_file_memory_init`.
pub record Pool : Type 0 where
  pub flag : Half
  pub pool : ℕ → ℕ
  pub back_pool : ℕ → ℕ
  pub ready : Bool
  pub current : CharPtr
  pub curr_len : ℕ

-- INI_KEYVALUE; `used` is STRUCT_NODE_IN_USED.
pub record Keyval : Type 0 where
  pub used : Bool
  pub key : Option CharPtr
  pub value : Option CharPtr
  pub pre : Option ℕ
  pub last : Option ℕ

-- INI_SETION.
pub record Section : Type 0 where
  pub used : Bool
  pub sec : Option CharPtr
  pub head : Option ℕ
  pub pre : Option ℕ
  pub last : Option ℕ

-- INI_FILE.
pub record File : Type 0 where
  pub used : Bool
  pub name : Option CharPtr
  pub head : Option ℕ

-- What the file system answers: the content of a file that can be read, whether a file can be
-- opened for writing, and whether the shell's `rm` of a file, and its `mv` of the copy to a file,
-- are successful.
pub record Disk : Type 0 where
  pub content : Bytes → Option Bytes
  pub writable : Bytes → Bool
  pub removable : Bytes → Bool
  pub movable : Bytes → Bool

pub record World : Type 0 where
  pub mem : Pool
  pub files : ℕ → File
  pub sections : ℕ → Section
  pub keyvals : ℕ → Keyval
  pub disk : Disk

abbrev pub max_operation_file_num : ℕ
max_operation_file_num = 2

abbrev pub max_inifile_section_num : ℕ
max_inifile_section_num = 10

-- INIFILE_KEYVALUE_ARRAY_LEN.
abbrev pub keyvalue_array_len : ℕ
keyvalue_array_len = 100

abbrev pub inifile_size_space : ℕ
inifile_size_space = 3072

-- The negative return codes of inifile.h. `memcmp_below` is a negative result of `memcmp` that
-- `rewrite_after_delete` may hand on as its own.
pub data Error : Type 0 where
  no_exist format_error error_parameter error_arraylen error_system : Error
  num_out_array section_array keyvalue_array : Error
  memory_pool_error memory_pool_out : Error
  section_nofound keyvalue_nofound section_alread keyvalue_alread : Error
  rewrite_error memcmp_below : Error

-- A call returns, or it fails with a code, or it leaves what the source defines: a NULL pointer
-- that is followed, or a ring of nodes that is walked for ever.
pub data Result (A : Type 0) : Type 0 where
  ok : A → Result A
  err : Error → Result A
  fault : Result A

abbrev pub M : Type 0 → Type 0
M A = World → Result A × World

unfoldable pub pure : {A : Type 0} → A → M A
pure a w = (ok a, w)

unfoldable pub fail : {A : Type 0} → Error → M A
fail e w = (err e, w)

-- The state as it stands.
unfoldable pub ask : M World
ask w = (ok w, w)

unfoldable pub modify : (World → World) → M (Unit {0})
modify f w = (ok tt, f w)

unfoldable pub from_option : {A : Type 0} → Error → Option A → M A
unfolding pure fail
from_option e none = fail e
from_option e (some a) = pure a

-- The nodes that `while(p) … p = p->last` visits. A walk longer than the array is a ring.
unfoldable pub nodes : (ℕ → Option ℕ) → ℕ → Option ℕ → Option (List ℕ)
nodes last zero p = none
nodes last (suc n) none = some []
nodes last (suc n) (some i) = let rest = nodes last n (last i) in Option.map (◌∷◌ i) rest

unfoldable pub walked : Option (List ℕ) → M (List ℕ)
walked none w = (fault, w)
walked (some xs) w = (ok xs, w)

abbrev pub walk : (ℕ → Option ℕ) → ℕ → Option ℕ → M (List ℕ)
walk last size p = walked (nodes last (suc size) p)

abbrev pub and_then : {A B : Type 0} → Result A → World → (A → M B) → Result B × World
and_then (ok a) w f = f a w
and_then (err e) w f = (err e, w)
and_then fault w f = (fault, w)

infixl 5 ◌>>=◌ ◌>>◌
-- To unfold this is to unfold the small actions too.
unfoldable pub ◌>>=◌ : {A B : Type 0} → M A → (A → M B) → M B
unfolding pure fail ask modify from_option walked
◌>>=◌ m f w = let (r, w') = m w in and_then r w' f

abbrev pub ◌>>◌ : {B : Type 0} → M (Unit {0}) → M B → M B
m >> k = m >>= λ _. k

-- `goto error_out`, where the code there changes the state once more.
unfoldable pub on_error : {A : Type 0} → (World → World) → M A → M A
on_error cleanup m w =
    let (r, w') = m w in
    elim r [ ok a ↦ (ok a, w') | err e ↦ (err e, cleanup w') | fault ↦ (fault, w') ]

-- The last of the nodes from `i` on: `while(p->last) p = p->last`.
abbrev pub final : ℕ → List ℕ → ℕ
final i [] = i
final i (j ∷ xs) = final j xs

abbrev pub set_section : ℕ → Section → World → World
set_section i s w = record w { sections = update w.sections i s }

abbrev pub set_keyval : ℕ → Keyval → World → World
set_keyval i k w = record w { keyvals = update w.keyvals i k }

abbrev pub set_file : ℕ → File → World → World
set_file i f w = record w { files = update w.files i f }
