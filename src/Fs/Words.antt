-- ===== src/Fs/Words.antt =====
-- The words of a block.
use model_lib.Base.{ℕ, ◌^◌, ◌<◌, ◌≡◌, ◌≢◌, arith}
use model_lib.Fs.{Content, word, set_word}

pub word-set_word_self : (i w : ℕ) (blk : Content) → w < 2 ^ 32 → word (set_word i w blk) i ≡ w
unfolding set_word
word-set_word_self i w blk h = ground arith

pub word-set_word_ne : (i j w : ℕ) (blk : Content) → i ≢ j → word (set_word i w blk) j ≡ word blk j
unfolding set_word
word-set_word_ne i j w blk h = ground arith
