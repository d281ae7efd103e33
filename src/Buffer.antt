-- ===== src/Buffer.antt =====
-- src/buffer.c: growing output buffers.
pub mod Sizes
pub mod Laws
use muddled.Base.{
  ℕ, zero, suc, ◌+◌, ◌-◌, ◌%◌, Bool, true, false, List, [], ◌∷◌, ◌++◌, Option, none, some, Text,
  length, take, leb, if◌then◌else◌,
}

-- `enum buf_t`
pub data BufT : Type 0 where
  buffer_safe buffer_overflow : BufT

-- `string` is the text up to the terminator, in a block of `size` bytes
pub record Buffer : Type 0 where
  pub state : BufT
  pub size : ℕ
  pub string : Text

abbrev pub buf_size : List ℕ
buf_size = 16 ∷ 32 ∷ 64 ∷ 128 ∷ 256 ∷ 1024 ∷ 2048 ∷ 4096 ∷ 8192 ∷ 16384 ∷ []

-- the loop over `buf_size`; `none` is -1
pub size_loop : List ℕ → ℕ → Option ℕ
size_loop [] val = none
size_loop (n ∷ ns) val = if leb val n then some n else size_loop ns val

pub get_size : ℕ → Option ℕ
unfolding size_loop
get_size val = size_loop buf_size val

-- `none` is an `abort`
pub new_buf_size : ℕ → Option Buffer
unfolding get_size
new_buf_size size = elim (get_size size) [
  | none ↦ none
  | some n ↦ some (record { state = buffer_safe; size = n; string = [] })
]

-- with `BASE_BUF`
unfoldable pub new_buf : Option Buffer
unfolding new_buf_size
new_buf = new_buf_size 1024

-- the loop that increases the size, on fuel: `none` means that it ran out, and a result `none` that
-- no size is large enough
pub grow_loop : ℕ → ℕ → ℕ → Option (Option ℕ)
unfolding get_size
grow_loop zero len size = none
grow_loop (suc fuel) len size =
    if leb size len
    then elim (get_size (size + 1)) [ none ↦ some none | some n ↦ grow_loop fuel len n ]
    else some (some size)

-- `MAX_BUF_LIST` rounds that grow, and one that does not
abbrev pub grow_fuel : ℕ
grow_fuel = 11

-- The bytes of `string` that are read are those before its terminator, at most `str_len` of them.
-- The result `none` means that the loop ran out of fuel.
unfoldable pub buf_add_len : Buffer → Text → ℕ → Option (Buffer × Bool)
unfolding grow_loop
buf_add_len buffer string str_len =
    let grown = grow_loop grow_fuel (length buffer.string + str_len + 1) buffer.size in
    elim buffer.state [
      | buffer_overflow ↦ some (buffer, false)
      | buffer_safe ↦ elim grown [
        | none ↦ none
        | some r ↦ elim r [
          | none ↦ some (record buffer { state = buffer_overflow }, false)
          | some n ↦
              some (record buffer { size = n; string = buffer.string ++ take str_len string }, true)
        ]
      ]
    ]

pub buf_add : Buffer → Text → Option (Buffer × Bool)
unfolding buf_add_len
buf_add buffer string = buf_add_len buffer string (length string)

-- `buf_add(buffer, string) && buf_add(buffer, "\n\r")`
unfoldable pub buf_addln : Buffer → Text → Option (Buffer × Bool)
unfolding buf_add
buf_addln buffer string = elim (buf_add buffer string) [
  | none ↦ none
  | some (b, ok) ↦
      let second = buf_add b (b'\n' ∷ b'\r' ∷ []) in if ok then second else some (b, false)
]

abbrev pub out_siz : ℕ
out_siz = 2048

-- `formatted` is what the format and its arguments give; `vsnprintf` cuts it to the buffer
unfoldable pub buf_addf : Buffer → Text → Option (Buffer × Bool)
unfolding buf_add
buf_addf buffer formatted = buf_add buffer (take (out_siz - 1) formatted)

unfoldable pub buf_addlnf : Buffer → Text → Option (Buffer × Bool)
unfolding buf_add
buf_addlnf buffer formatted =
    buf_add buffer (take (out_siz - 3 - 1) formatted ++ (b'\n' ∷ b'\r' ∷ []))

unfoldable pub clear_buf : Buffer → Buffer
clear_buf buffer = record buffer { state = buffer_safe; string = [] }

-- the index of the static buffer that `get_temp_buf` returns, from the one it returned before
abbrev pub get_temp_buf : ℕ → ℕ
get_temp_buf temp_buf_index = (temp_buf_index + 1) % 5
