-- ===== src/Blob/Chunks.antt =====
-- The receiving loop of BlobService.UploadBlob, over the messages of the stream.
use goph_keeper.Common.{
  ℕ, ◌+◌, ◌%◌, ◌^◌, String, List, [], ◌∷◌, ◌++◌, if◌then◌else◌, ltb, ◌==◌, length, not,
}

-- What stream.Recv returns; a stream whose list is used up is at io.EOF.
pub data UploadMessage : Type 0 where
  header : String → UploadMessage
  chunk : ℕ → List ℕ → UploadMessage
  no_body receive_error : UploadMessage

-- How the loop ends: at io.EOF, by a receive error, by a message that is no chunk, or by a chunk
-- that makes the handler abort the upload.
pub data Received : Type 0 where
  complete : ℕ → List ℕ → Received
  broken not_a_chunk rejected : Received

abbrev pub wrap_u64 : ℕ → ℕ
wrap_u64 n = n % 2 ^ 64

unfoldable pub receive : ℕ → ℕ → ℕ → ℕ → List ℕ → List UploadMessage → Received
receive max_chunk expected_size total next_chunk buf [] = complete total buf
receive max_chunk expected_size total next_chunk buf (receive_error ∷ rest) = broken
receive max_chunk expected_size total next_chunk buf (header id ∷ rest) = not_a_chunk
receive max_chunk expected_size total next_chunk buf (no_body ∷ rest) = not_a_chunk
receive max_chunk expected_size total next_chunk buf (chunk index bytes ∷ rest) =
    let later =
      receive max_chunk expected_size (wrap_u64 (total + length bytes)) (wrap_u64 (next_chunk + 1))
        (buf ++ bytes) rest in
    if not (index == next_chunk)
    then rejected
    else if ltb max_chunk (length bytes)
    then rejected
    else if ltb expected_size (wrap_u64 (total + length bytes))
    then rejected
    else later

-- The loop from its start.
unfoldable pub receive_chunks : ℕ → ℕ → List UploadMessage → Received
unfolding receive
receive_chunks max_chunk expected_size = receive max_chunk expected_size 0 0 []
