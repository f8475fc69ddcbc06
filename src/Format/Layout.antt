-- ===== src/Format/Layout.antt =====
-- The length of a primary header does not depend on the fields that are patched when the image is
-- complete.
use goldboot.Base.{
  ℕ, ◌≡◌, refl, List, ◌++◌, length, length-append, be_bytes, length-be_bytes, arith,
}
use goldboot.Format.{PrimaryHeader}
use goldboot.Format.Write.{
  image_magic, header_encryption_code, arch_code, write_all, write_element, write_primary,
}

abbrev pub patch_primary : List ℕ → ℕ → ℕ → PrimaryHeader → PrimaryHeader
patch_primary content_id offset size h = record h {
  content_id = content_id;
  directory_offset = offset;
  directory_size = size;
}

same_tail {ℓ} :
    {A : Type ℓ} (xs ys zs : List A) → length ys ≡ length zs → length (xs ++ ys) ≡ length (xs ++ zs)
same_tail xs ys zs h = omega (arith, length-append xs ys, length-append xs zs)

same_head {ℓ} :
    {A : Type ℓ} (xs xs' ys ys' : List A)
    → length xs ≡ length xs'
    → length ys ≡ length ys'
    → length (xs ++ ys) ≡ length (xs' ++ ys')
same_head xs xs' ys ys' h k = omega (arith, length-append xs ys, length-append xs' ys')

same_be : (k n m : ℕ) → length (be_bytes k n) ≡ length (be_bytes k m)
same_be k n m = rw (length-be_bytes k n, length-be_bytes k m) refl

-- A primary header keeps its length when its content ID, directory offset and directory size are
-- replaced, the content ID by one as long; so the final header can overwrite the first one in place.
pub length-write_primary_patched :
    (h : PrimaryHeader) (content_id : List ℕ) (offset size : ℕ)
    → length content_id ≡ length h.content_id
    → length (write_primary (patch_primary content_id offset size h)) ≡ length (write_primary h)
unfolding write_primary
length-write_primary_patched h content_id offset size same = same_tail image_magic _ _ (
    same_tail (be_bytes 1 h.version) _ _ (
      same_tail (be_bytes 8 h.size) _ _ (
        same_tail (be_bytes 8 h.timestamp) _ _ (
          same_tail (be_bytes 1 (header_encryption_code h.encryption_type)) _ _ (
            same_tail (be_bytes 1 h.element_count) _ _ (
              same_tail (write_all write_element h.elements) _ _ (
                same_tail (be_bytes 1 (arch_code h.arch)) _ _ (
                  same_tail (be_bytes 1 h.name_length) _ _ (
                    same_tail h.name _ _ (
                      same_tail (be_bytes 1 h.tag_length) _ _ (
                        same_tail h.tag _ _ (
                          same_head content_id h.content_id _ _ same (
                            same_tail h.directory_nonce _ _ (
                              same_head (be_bytes 8 offset) (be_bytes 8 h.directory_offset) _ _
                                (same_be 8 offset h.directory_offset)
                                (same_be 4 size h.directory_size)))))))))))))))
