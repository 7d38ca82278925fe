-- ===== src/Options.antt =====
-- lib/cli/options.js: what getRunOptions makes of the options that it has read from all sources: the
-- addresses of the API, the rate limits, the headers to pass on, the timeouts of workers. An option that
-- is missing, or an empty text where the source does not tell it from a missing one, is `none`; an
-- exception is `err`. Where `delete` takes options off, the model leaves the value, which nothing reads.
pub mod Urls
pub mod Numbers
pub mod Limits
pub mod Laws
pub mod Overrides
