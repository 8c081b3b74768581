-- ===== src/Fs/RoundTrip.antt =====
-- What writei of kernel/fs.c writes, readi reads.
use model_lib.Fs.{Fs}
use model_lib.Log.{Log}
