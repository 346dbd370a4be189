-- ===== src/Extract.antt =====
-- crates/dafs-extract/src/lib.rs, sniff.rs and filename.rs: what kind of document a file is, and the
-- metadata that is read from it. The parsers of the formats, `infer` and the look at the git
-- repository are arguments.

use dafs.Prelude.{
  ℕ, zero, suc, String, Bool, true, false, ◌⊎◌, inl, inr, Option, none, some, List, [], ◌∷◌, any,
  if◌then◌else◌, ◌==◌, eq_string,
}

pub data DocType : Type 0 where
  unknown pdf docx xlsx pptx jpeg tiff text : DocType

unfoldable pub as_str : DocType → String
as_str unknown = "unknown"
as_str pdf = "pdf"
as_str docx = "docx"
as_str xlsx = "xlsx"
as_str pptx = "pptx"
as_str jpeg = "jpeg"
as_str tiff = "tiff"
as_str text = "text"

abbrev pub text_extensions : List String
text_extensions =
    "txt" ∷ "md" ∷ "markdown" ∷ "rst" ∷ "org" ∷ "rs" ∷ "py" ∷ "js" ∷ "ts" ∷ "jsx" ∷ "tsx" ∷ "go"
    ∷ "java" ∷ "c" ∷ "h" ∷ "cpp" ∷ "hpp" ∷ "cc" ∷ "cs" ∷ "rb" ∷ "php" ∷ "sh" ∷ "bash" ∷ "zsh"
    ∷ "toml" ∷ "yaml" ∷ "yml" ∷ "json" ∷ "xml" ∷ "html" ∷ "css" ∷ "sql" ∷ "lua" ∷ "swift" ∷ "kt"
    ∷ "scala" ∷ "el" ∷ "vim" ∷ "conf" ∷ "ini" ∷ "cfg" ∷ "gitignore" ∷ "env" ∷ []

-- By the extension in lower case, which `extension` reads from the path.
unfoldable pub office_type_by_extension : Option String → Option DocType
office_type_by_extension none = none
office_type_by_extension (some ext) =
    if ext == "docx"
    then some docx
    else if ext == "xlsx"
    then some xlsx
    else if ext == "pptx"
    then some pptx
    else none

abbrev pub or_unknown : Option DocType → DocType
or_unknown none = unknown
or_unknown (some t) = t

unfoldable pub guess : Option String → DocType
unfolding office_type_by_extension
guess none = unknown
guess (some ext) =
    if any (λ e. e == ext) text_extensions
    then text
    else if ext == "pdf"
    then pdf
    else or_unknown (office_type_by_extension (some ext))

-- A zip archive is what its extension says, if that is a format of Office.
abbrev pub sniff_zip : Option String → DocType
sniff_zip ext = elim (office_type_by_extension ext) [ none ↦ guess ext | some t ↦ t ]

-- `sniff` on the MIME type that `infer` finds in the first bytes.
unfoldable pub sniff_head : Option String → Option String → DocType
unfolding guess office_type_by_extension
sniff_head none ext = guess ext
sniff_head (some mime) ext =
    if mime == "application/pdf"
    then pdf
    else if mime == "image/jpeg"
    then jpeg
    else if mime == "image/tiff"
    then tiff
    else if mime == "application/zip"
    then sniff_zip ext
    else guess ext

pub record Extraction : Type 0 where
  pub doc_type : DocType
  pub title : Option String
  pub author : Option String
  pub language : Option String
  pub page_count : Option ℕ
  pub word_count : Option ℕ
  pub image_taken_at_unix : Option ℕ
  pub image_camera_model : Option String
  pub git_branch : Option String
  pub git_head_commit : Option String
  pub git_head_author : Option String
  pub git_head_at_unix : Option ℕ
  pub body_text : Option String

-- `Extraction::default()`
abbrev pub no_extraction : Extraction
no_extraction = record {
  doc_type = unknown;
  title = none;
  author = none;
  language = none;
  page_count = none;
  word_count = none;
  image_taken_at_unix = none;
  image_camera_model = none;
  git_branch = none;
  git_head_commit = none;
  git_head_author = none;
  git_head_at_unix = none;
  body_text = none;
}

pub data ExtractError : Type 0 where
  io : String → ExtractError
  panicked : DocType → String → ExtractError
  malformed : DocType → String → String → ExtractError

pub record GitFacts : Type 0 where
  pub branch : Option String
  pub head_commit : Option String
  pub head_author : Option String
  pub head_at_unix : Option ℕ

-- `none` is a lookup that finds no repository, fails or panics.
unfoldable pub merge_git_facts : Option GitFacts → Extraction → Extraction
merge_git_facts none e = e
merge_git_facts (some facts) e = record e {
  git_branch = facts.branch;
  git_head_commit = facts.head_commit;
  git_head_author = facts.head_author;
  git_head_at_unix = facts.head_at_unix;
}

-- What a parser does with the bytes of a file.
pub data Content : Type 0 where
  parsed : Extraction → Content
  failed : String → Content
  panic : Content

-- What one call of `extract` finds: `none` is an error of the file system.
pub record Disk : Type 0 where
  pub sniffed : Option DocType
  pub bytes : Option (List ℕ)
  pub exif : List ℕ → Content
  pub office_docx : List ℕ → Content
  pub office_xlsx : List ℕ → Content
  pub office_pptx : List ℕ → Content
  pub git : Option GitFacts

abbrev pub needs_bytes : DocType → Bool
needs_bytes unknown = false
needs_bytes text = false
needs_bytes pdf = false
needs_bytes _ = true

-- `read_capped`, which is not called for a type that needs no bytes.
abbrev pub read_if : Bool → Option (List ℕ) → Option (List ℕ)
read_if true bytes = bytes
read_if false bytes = some []

unfoldable pub parse_as : DocType → Disk → List ℕ → Content
parse_as jpeg disk bytes = disk.exif bytes
parse_as tiff disk bytes = disk.exif bytes
parse_as docx disk bytes = disk.office_docx bytes
parse_as xlsx disk bytes = disk.office_xlsx bytes
parse_as pptx disk bytes = disk.office_pptx bytes
parse_as _ disk bytes = parsed no_extraction

abbrev pub finish : DocType → String → Option GitFacts → Content → ExtractError ⊎ Extraction
finish doc_type path git (parsed e) = inr (merge_git_facts git (record e { doc_type = doc_type }))
finish doc_type path git (failed reason) = inl (malformed doc_type path reason)
finish doc_type path git panic = inl (panicked doc_type path)

unfoldable pub extract : String → Disk → ExtractError ⊎ Extraction
unfolding parse_as merge_git_facts
extract path disk = elim disk.sniffed [
  | none ↦ inl (io path)
  | some doc_type ↦ elim (read_if (needs_bytes doc_type) disk.bytes) [
    | none ↦ inl (io path)
    | some bytes ↦ finish doc_type path disk.git (parse_as doc_type disk bytes)
  ]
]

abbrev pub max_body_text_chars : ℕ
max_body_text_chars = 8000

-- `chars().count()`
unfoldable pub count_chars : String → ℕ
count_chars String.[] = 0
count_chars (String.◌∷◌ c s) = suc (count_chars s)

unfoldable pub take_chars : ℕ → String → String
take_chars zero s = String.[]
take_chars (suc n) String.[] = String.[]
take_chars (suc n) (String.◌∷◌ c s) = String.◌∷◌ c (take_chars n s)

-- The text before the character that `char_indices().nth` finds, or all of it.
unfoldable pub cap_body_text : String → String
unfolding take_chars
cap_body_text = take_chars max_body_text_chars
