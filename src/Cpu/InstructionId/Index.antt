-- ===== src/Cpu/InstructionId/Index.antt =====
-- libcpu/inc/instructionTable.h: the numbers of the enumerators, which index the table of handlers.
use switch_emu_pub.Base.{ℕ}
use switch_emu_pub.Cpu.InstructionId.{InstructionId}

-- The value of the enumerator.
unfoldable pub index : InstructionId → ℕ
index InstructionId.invalid = 0
index InstructionId.b_cond = 1
index InstructionId.br = 2
index InstructionId.blr = 3
index InstructionId.ret = 4
index InstructionId.eret = 5
index InstructionId.drps = 6
index InstructionId.b = 7
index InstructionId.bl = 8
index InstructionId.cbz_32 = 9
index InstructionId.cbnz_32 = 10
index InstructionId.cbz_64 = 11
index InstructionId.cbnz_64 = 12
index InstructionId.tbz = 13
index InstructionId.tbnz = 14
index InstructionId.svc = 15
index InstructionId.hvc = 16
index InstructionId.smc = 17
index InstructionId.brk = 18
index InstructionId.hlt = 19
index InstructionId.dcps1 = 20
index InstructionId.dcps2 = 21
index InstructionId.dcps3 = 22
index InstructionId.msr_imm = 23
index InstructionId.msr_reg = 24
index InstructionId.hint = 25
index InstructionId.nop = 26
index InstructionId.yield = 27
index InstructionId.wfe = 28
index InstructionId.wfi = 29
index InstructionId.sev = 30
index InstructionId.sevl = 31
index InstructionId.clrex = 32
index InstructionId.dsb = 33
index InstructionId.dmb = 34
index InstructionId.isb = 35
index InstructionId.sys = 36
index InstructionId.sysl = 37
index InstructionId.mrs = 38
index InstructionId.adr = 39
index InstructionId.adrp = 40
index InstructionId.add_32_imm = 41
index InstructionId.adds_32_imm = 42
index InstructionId.sub_32_imm = 43
index InstructionId.subs_32_imm = 44
index InstructionId.add_64_imm = 45
index InstructionId.adds_64_imm = 46
index InstructionId.sub_64_imm = 47
index InstructionId.subs_64_imm = 48
index InstructionId.and_32_imm = 49
index InstructionId.orr_32_imm = 50
index InstructionId.eor_32_imm = 51
index InstructionId.ands_32_imm = 52
index InstructionId.and_64_imm = 53
index InstructionId.orr_64_imm = 54
index InstructionId.eor_64_imm = 55
index InstructionId.ands_64_imm = 56
index InstructionId.movn_32 = 57
index InstructionId.movz_32 = 58
index InstructionId.movk_32 = 59
index InstructionId.movn_64 = 60
index InstructionId.movz_64 = 61
index InstructionId.movk_64 = 62
index InstructionId.sbfm_32 = 63
index InstructionId.bfm_32 = 64
index InstructionId.ubfm_32 = 65
index InstructionId.sbfm_64 = 66
index InstructionId.bfm_64 = 67
index InstructionId.ubfm_64 = 68
index InstructionId.extr_32 = 69
index InstructionId.extr_64 = 70
index InstructionId.udiv_32 = 71
index InstructionId.sdiv_32 = 72
index InstructionId.lslv_32 = 73
index InstructionId.lsrv_32 = 74
index InstructionId.asrv_32 = 75
index InstructionId.rorv_32 = 76
index InstructionId.udiv_64 = 77
index InstructionId.sdiv_64 = 78
index InstructionId.lslv_64 = 79
index InstructionId.lsrv_64 = 80
index InstructionId.asrv_64 = 81
index InstructionId.rorv_64 = 82
index InstructionId.crc32b = 83
index InstructionId.crc32h = 84
index InstructionId.crc32w = 85
index InstructionId.crc32x = 86
index InstructionId.crc32cb = 87
index InstructionId.crc32ch = 88
index InstructionId.crc32cw = 89
index InstructionId.crc32cx = 90
index InstructionId.rbit_32 = 91
index InstructionId.rev16_32 = 92
index InstructionId.rev_32 = 93
index InstructionId.clz_32 = 94
index InstructionId.cls_32 = 95
index InstructionId.rbit_64 = 96
index InstructionId.rev16_64 = 97
index InstructionId.rev32_64 = 98
index InstructionId.rev_64 = 99
index InstructionId.clz_64 = 100
index InstructionId.cls_64 = 101
index InstructionId.and_32_shifted = 102
index InstructionId.bic_32_shifted = 103
index InstructionId.orr_32_shifted = 104
index InstructionId.orn_32_shifted = 105
index InstructionId.eor_32_shifted = 106
index InstructionId.eon_32_shifted = 107
index InstructionId.ands_32_shifted = 108
index InstructionId.bics_32_shifted = 109
index InstructionId.and_64_shifted = 110
index InstructionId.bic_64_shifted = 111
index InstructionId.orr_64_shifted = 112
index InstructionId.orn_64_shifted = 113
index InstructionId.eor_64_shifted = 114
index InstructionId.eon_64_shifted = 115
index InstructionId.ands_64_shifted = 116
index InstructionId.bics_64_shifted = 117
index InstructionId.add_32_shifted = 118
index InstructionId.adds_32_shifted = 119
index InstructionId.sub_32_shifted = 120
index InstructionId.subs_32_shifted = 121
index InstructionId.add_64_shifted = 122
index InstructionId.adds_64_shifted = 123
index InstructionId.sub_64_shifted = 124
index InstructionId.subs_64_shifted = 125
index InstructionId.add_32_extended = 126
index InstructionId.adds_32_extended = 127
index InstructionId.sub_32_extended = 128
index InstructionId.subs_32_extended = 129
index InstructionId.add_64_extended = 130
index InstructionId.adds_64_extended = 131
index InstructionId.sub_64_extended = 132
index InstructionId.subs_64_extended = 133
index InstructionId.adc_32 = 134
index InstructionId.adcs_32 = 135
index InstructionId.sbc_32 = 136
index InstructionId.sbcs_32 = 137
index InstructionId.adc_64 = 138
index InstructionId.adcs_64 = 139
index InstructionId.sbc_64 = 140
index InstructionId.sbcs_64 = 141
index InstructionId.ccmn_32_reg = 142
index InstructionId.ccmp_32_reg = 143
index InstructionId.ccmn_64_reg = 144
index InstructionId.ccmp_64_reg = 145
index InstructionId.ccmn_32_imm = 146
index InstructionId.ccmp_32_imm = 147
index InstructionId.ccmn_64_imm = 148
index InstructionId.ccmp_64_imm = 149
index InstructionId.csel_32 = 150
index InstructionId.csinc_32 = 151
index InstructionId.csinv_32 = 152
index InstructionId.csneg_32 = 153
index InstructionId.csel_64 = 154
index InstructionId.csinc_64 = 155
index InstructionId.csinv_64 = 156
index InstructionId.csneg_64 = 157
index InstructionId.madd_32 = 158
index InstructionId.msub_32 = 159
index InstructionId.madd_64 = 160
index InstructionId.msub_64 = 161
index InstructionId.smaddl = 162
index InstructionId.smsubl = 163
index InstructionId.smulh = 164
index InstructionId.umaddl = 165
index InstructionId.umsubl = 166
index InstructionId.umulh = 167
index InstructionId.st1_multi_1reg = 168
index InstructionId.st1_multi_2reg = 169
index InstructionId.st1_multi_3reg = 170
index InstructionId.st1_multi_4reg = 171
index InstructionId.st2_multi = 172
index InstructionId.st3_multi = 173
index InstructionId.st4_multi = 174
index InstructionId.ld1_multi_1reg = 175
index InstructionId.ld1_multi_2reg = 176
index InstructionId.ld1_multi_3reg = 177
index InstructionId.ld1_multi_4reg = 178
index InstructionId.ld2_multi = 179
index InstructionId.ld3_multi = 180
index InstructionId.ld4_multi = 181
index InstructionId.st1_multi_reg_1reg = 182
index InstructionId.st1_multi_reg_2reg = 183
index InstructionId.st1_multi_reg_3reg = 184
index InstructionId.st1_multi_reg_4reg = 185
index InstructionId.st2_multi_reg = 186
index InstructionId.st3_multi_reg = 187
index InstructionId.st4_multi_reg = 188
index InstructionId.st1_multi_offset_1reg = 189
index InstructionId.st1_multi_offset_2reg = 190
index InstructionId.st1_multi_offset_3reg = 191
index InstructionId.st1_multi_offset_4reg = 192
index InstructionId.st2_multi_offset = 193
index InstructionId.st3_multi_offset = 194
index InstructionId.st4_multi_offset = 195
index InstructionId.ld1_multi_reg_1reg = 196
index InstructionId.ld1_multi_reg_2reg = 197
index InstructionId.ld1_multi_reg_3reg = 198
index InstructionId.ld1_multi_reg_4reg = 199
index InstructionId.ld2_multi_reg = 200
index InstructionId.ld3_multi_reg = 201
index InstructionId.ld4_multi_reg = 202
index InstructionId.ld1_multi_offset_1reg = 203
index InstructionId.ld1_multi_offset_2reg = 204
index InstructionId.ld1_multi_offset_3reg = 205
index InstructionId.ld1_multi_offset_4reg = 206
index InstructionId.ld2_multi_offset = 207
index InstructionId.ld3_multi_offset = 208
index InstructionId.ld4_multi_offset = 209
index InstructionId.st1_single_8 = 210
index InstructionId.st1_single_16 = 211
index InstructionId.st1_single_32 = 212
index InstructionId.st1_single_64 = 213
index InstructionId.st2_single_8 = 214
index InstructionId.st2_single_16 = 215
index InstructionId.st2_single_32 = 216
index InstructionId.st2_single_64 = 217
index InstructionId.st3_single_8 = 218
index InstructionId.st3_single_16 = 219
index InstructionId.st3_single_32 = 220
index InstructionId.st3_single_64 = 221
index InstructionId.st4_single_8 = 222
index InstructionId.st4_single_16 = 223
index InstructionId.st4_single_32 = 224
index InstructionId.st4_single_64 = 225
index InstructionId.ld1_single_8 = 226
index InstructionId.ld1_single_16 = 227
index InstructionId.ld1_single_32 = 228
index InstructionId.ld1_single_64 = 229
index InstructionId.ld2_single_8 = 230
index InstructionId.ld2_single_16 = 231
index InstructionId.ld2_single_32 = 232
index InstructionId.ld2_single_64 = 233
index InstructionId.ld3_single_8 = 234
index InstructionId.ld3_single_16 = 235
index InstructionId.ld3_single_32 = 236
index InstructionId.ld3_single_64 = 237
index InstructionId.ld4_single_8 = 238
index InstructionId.ld4_single_16 = 239
index InstructionId.ld4_single_32 = 240
index InstructionId.ld4_single_64 = 241
index InstructionId.ld1r = 242
index InstructionId.ld2r = 243
index InstructionId.ld3r = 244
index InstructionId.ld4r = 245
index InstructionId.st1_single_8_reg = 246
index InstructionId.st1_single_16_reg = 247
index InstructionId.st1_single_32_reg = 248
index InstructionId.st1_single_64_reg = 249
index InstructionId.st2_single_8_reg = 250
index InstructionId.st2_single_16_reg = 251
index InstructionId.st2_single_32_reg = 252
index InstructionId.st2_single_64_reg = 253
index InstructionId.st3_single_8_reg = 254
index InstructionId.st3_single_16_reg = 255
index InstructionId.st3_single_32_reg = 256
index InstructionId.st3_single_64_reg = 257
index InstructionId.st4_single_8_reg = 258
index InstructionId.st4_single_16_reg = 259
index InstructionId.st4_single_32_reg = 260
index InstructionId.st4_single_64_reg = 261
index InstructionId.st1_single_8_imm = 262
index InstructionId.st1_single_16_imm = 263
index InstructionId.st1_single_32_imm = 264
index InstructionId.st1_single_64_imm = 265
index InstructionId.st2_single_8_imm = 266
index InstructionId.st2_single_16_imm = 267
index InstructionId.st2_single_32_imm = 268
index InstructionId.st2_single_64_imm = 269
index InstructionId.st3_single_8_imm = 270
index InstructionId.st3_single_16_imm = 271
index InstructionId.st3_single_32_imm = 272
index InstructionId.st3_single_64_imm = 273
index InstructionId.st4_single_8_imm = 274
index InstructionId.st4_single_16_imm = 275
index InstructionId.st4_single_32_imm = 276
index InstructionId.st4_single_64_imm = 277
index InstructionId.ld1_single_8_reg = 278
index InstructionId.ld1_single_16_reg = 279
index InstructionId.ld1_single_32_reg = 280
index InstructionId.ld1_single_64_reg = 281
index InstructionId.ld2_single_8_reg = 282
index InstructionId.ld2_single_16_reg = 283
index InstructionId.ld2_single_32_reg = 284
index InstructionId.ld2_single_64_reg = 285
index InstructionId.ld3_single_8_reg = 286
index InstructionId.ld3_single_16_reg = 287
index InstructionId.ld3_single_32_reg = 288
index InstructionId.ld3_single_64_reg = 289
index InstructionId.ld4_single_8_reg = 290
index InstructionId.ld4_single_16_reg = 291
index InstructionId.ld4_single_32_reg = 292
index InstructionId.ld4_single_64_reg = 293
index InstructionId.ld1r_reg = 294
index InstructionId.ld2r_reg = 295
index InstructionId.ld3r_reg = 296
index InstructionId.ld4r_reg = 297
index InstructionId.ld1_single_8_imm = 298
index InstructionId.ld1_single_16_imm = 299
index InstructionId.ld1_single_32_imm = 300
index InstructionId.ld1_single_64_imm = 301
index InstructionId.ld2_single_8_imm = 302
index InstructionId.ld2_single_16_imm = 303
index InstructionId.ld2_single_32_imm = 304
index InstructionId.ld2_single_64_imm = 305
index InstructionId.ld3_single_8_imm = 306
index InstructionId.ld3_single_16_imm = 307
index InstructionId.ld3_single_32_imm = 308
index InstructionId.ld3_single_64_imm = 309
index InstructionId.ld4_single_8_imm = 310
index InstructionId.ld4_single_16_imm = 311
index InstructionId.ld4_single_32_imm = 312
index InstructionId.ld4_single_64_imm = 313
index InstructionId.ld1r_imm = 314
index InstructionId.ld2r_imm = 315
index InstructionId.ld3r_imm = 316
index InstructionId.ld4r_imm = 317
index InstructionId.stxrb = 318
index InstructionId.stlxrb = 319
index InstructionId.ldxrb = 320
index InstructionId.ldaxrb = 321
index InstructionId.stlrb = 322
index InstructionId.ldarb = 323
index InstructionId.stxrh = 324
index InstructionId.stlxrh = 325
index InstructionId.ldxrh = 326
index InstructionId.ldaxrh = 327
index InstructionId.stlrh = 328
index InstructionId.ldarh = 329
index InstructionId.stxr32 = 330
index InstructionId.stlxr32 = 331
index InstructionId.stxp32 = 332
index InstructionId.stlxp32 = 333
index InstructionId.ldxr32 = 334
index InstructionId.ldaxr32 = 335
index InstructionId.ldxp32 = 336
index InstructionId.ldaxp32 = 337
index InstructionId.stlr32 = 338
index InstructionId.ldar32 = 339
index InstructionId.stxr64 = 340
index InstructionId.stlxr64 = 341
index InstructionId.stxp64 = 342
index InstructionId.stlxp64 = 343
index InstructionId.ldxr64 = 344
index InstructionId.ldaxr64 = 345
index InstructionId.ldxp64 = 346
index InstructionId.ldaxp64 = 347
index InstructionId.stlr64 = 348
index InstructionId.ldar64 = 349
index InstructionId.ldr32_literal = 350
index InstructionId.ldr32_literal_float = 351
index InstructionId.ldr64_literal = 352
index InstructionId.ldr64_literal_float = 353
index InstructionId.ldrsw_literal = 354
index InstructionId.ldr128_literal = 355
index InstructionId.prfm_literal = 356
index InstructionId.stnp32 = 357
index InstructionId.ldnp32 = 358
index InstructionId.stnp32_float = 359
index InstructionId.ldnp32_float = 360
index InstructionId.stnp64_float = 361
index InstructionId.ldnp64_float = 362
index InstructionId.stnp64 = 363
index InstructionId.ldnp64 = 364
index InstructionId.stnp128 = 365
index InstructionId.ldnp128 = 366
index InstructionId.stp32_post = 367
index InstructionId.ldp32_post = 368
index InstructionId.stp32_post_float = 369
index InstructionId.ldp32_post_float = 370
index InstructionId.ldpsw_post = 371
index InstructionId.stp64_post_float = 372
index InstructionId.ldp64_post_float = 373
index InstructionId.stp64_post = 374
index InstructionId.ldp64_post = 375
index InstructionId.stp128_post = 376
index InstructionId.ldp128_post = 377
index InstructionId.stp32_offset = 378
index InstructionId.ldp32_offset = 379
index InstructionId.stp32_offset_float = 380
index InstructionId.ldp32_offset_float = 381
index InstructionId.ldpsw_offset = 382
index InstructionId.stp64_offset_float = 383
index InstructionId.ldp64_offset_float = 384
index InstructionId.stp64_offset = 385
index InstructionId.ldp64_offset = 386
index InstructionId.stp128_offset = 387
index InstructionId.ldp128_offset = 388
index InstructionId.stp32_pre = 389
index InstructionId.ldp32_pre = 390
index InstructionId.stp32_pre_float = 391
index InstructionId.ldp32_pre_float = 392
index InstructionId.ldpsw_pre = 393
index InstructionId.stp64_pre_float = 394
index InstructionId.ldp64_pre_float = 395
index InstructionId.stp64_pre = 396
index InstructionId.ldp64_pre = 397
index InstructionId.stp128_pre = 398
index InstructionId.ldp128_pre = 399
index InstructionId.sturb = 400
index InstructionId.ldurb = 401
index InstructionId.ldursb64 = 402
index InstructionId.ldursb32 = 403
index InstructionId.stur8_float = 404
index InstructionId.ldur8_float = 405
index InstructionId.stur128 = 406
index InstructionId.ldur128 = 407
index InstructionId.sturh = 408
index InstructionId.ldurh = 409
index InstructionId.ldursh64 = 410
index InstructionId.ldursh32 = 411
index InstructionId.stur16_float = 412
index InstructionId.ldur16_float = 413
index InstructionId.stur32 = 414
index InstructionId.ldur32 = 415
index InstructionId.ldursw = 416
index InstructionId.stur32_float = 417
index InstructionId.ldur32_float = 418
index InstructionId.stur64 = 419
index InstructionId.ldur64 = 420
index InstructionId.prfm_unscaled = 421
index InstructionId.stur64_float = 422
index InstructionId.ldur64_float = 423
index InstructionId.strb_post = 424
index InstructionId.ldrb_post = 425
index InstructionId.ldrsb64_post = 426
index InstructionId.ldrsb32_post = 427
index InstructionId.str8_post_float = 428
index InstructionId.ldr8_post_float = 429
index InstructionId.str128_post = 430
index InstructionId.ldr128_post = 431
index InstructionId.strh_post = 432
index InstructionId.ldrh_post = 433
index InstructionId.ldrsh64_post = 434
index InstructionId.ldrsh32_post = 435
index InstructionId.str16_post_float = 436
index InstructionId.ldr16_post_float = 437
index InstructionId.str32_post = 438
index InstructionId.ldr32_post = 439
index InstructionId.ldrsw_post = 440
index InstructionId.str32_post_float = 441
index InstructionId.ldr32_post_float = 442
index InstructionId.str64_post = 443
index InstructionId.ldr64_post = 444
index InstructionId.str64_post_float = 445
index InstructionId.ldr64_post_float = 446
index InstructionId.sttrb = 447
index InstructionId.ldtrb = 448
index InstructionId.ldtrsb64 = 449
index InstructionId.ldtrsb32 = 450
index InstructionId.sttrh = 451
index InstructionId.ldtrh = 452
index InstructionId.ldtrsh64 = 453
index InstructionId.ldtrsh32 = 454
index InstructionId.sttr32 = 455
index InstructionId.ldtr32 = 456
index InstructionId.ldtrsw = 457
index InstructionId.sttr64 = 458
index InstructionId.ldtr64 = 459
index InstructionId.strb_pre = 460
index InstructionId.ldrb_pre = 461
index InstructionId.ldrsb64_pre = 462
index InstructionId.ldrsb32_pre = 463
index InstructionId.str8_pre_float = 464
index InstructionId.ldr8_pre_float = 465
index InstructionId.str128_pre = 466
index InstructionId.ldr128_pre = 467
index InstructionId.strh_pre = 468
index InstructionId.ldrh_pre = 469
index InstructionId.ldrsh64_pre = 470
index InstructionId.ldrsh32_pre = 471
index InstructionId.str16_pre_float = 472
index InstructionId.ldr16_pre_float = 473
index InstructionId.str32_pre = 474
index InstructionId.ldr32_pre = 475
index InstructionId.ldrsw_pre = 476
index InstructionId.str32_pre_float = 477
index InstructionId.ldr32_pre_float = 478
index InstructionId.str64_pre = 479
index InstructionId.ldr64_pre = 480
index InstructionId.str64_pre_float = 481
index InstructionId.ldr64_pre_float = 482
index InstructionId.strb_reg = 483
index InstructionId.ldrb_reg = 484
index InstructionId.ldrsb64_reg = 485
index InstructionId.ldrsb32_reg = 486
index InstructionId.str8_reg_float = 487
index InstructionId.ldr8_reg_float = 488
index InstructionId.str128_reg = 489
index InstructionId.ldr128_reg = 490
index InstructionId.strh_reg = 491
index InstructionId.ldrh_reg = 492
index InstructionId.ldrsh64_reg = 493
index InstructionId.ldrsh32_reg = 494
index InstructionId.str16_reg_float = 495
index InstructionId.ldr16_reg_float = 496
index InstructionId.str32_reg = 497
index InstructionId.ldr32_reg = 498
index InstructionId.ldrsw_reg = 499
index InstructionId.str32_reg_float = 500
index InstructionId.ldr32_reg_float = 501
index InstructionId.str64_reg = 502
index InstructionId.ldr64_reg = 503
index InstructionId.prfm_reg = 504
index InstructionId.str64_reg_float = 505
index InstructionId.ldr64_reg_float = 506
index InstructionId.strb_imm = 507
index InstructionId.ldrb_imm = 508
index InstructionId.ldrsb64_imm = 509
index InstructionId.ldrsb32_imm = 510
index InstructionId.str8_imm_float = 511
index InstructionId.ldr8_imm_float = 512
index InstructionId.str128_imm = 513
index InstructionId.ldr128_imm = 514
index InstructionId.strh_imm = 515
index InstructionId.ldrh_imm = 516
index InstructionId.ldrsh64_imm = 517
index InstructionId.ldrsh32_imm = 518
index InstructionId.str16_imm_float = 519
index InstructionId.ldr16_imm_float = 520
index InstructionId.str32_imm = 521
index InstructionId.ldr32_imm = 522
index InstructionId.ldrsw_imm = 523
index InstructionId.str32_imm_float = 524
index InstructionId.ldr32_imm_float = 525
index InstructionId.str64_imm = 526
index InstructionId.ldr64_imm = 527
index InstructionId.prfm_imm = 528
index InstructionId.str64_imm_float = 529
index InstructionId.ldr64_imm_float = 530
index InstructionId.scvtf_32_single_fixed = 531
index InstructionId.ucvtf_32_single_fixed = 532
index InstructionId.fcvtzs_single_32_fixed = 533
index InstructionId.fcvtzu_single_32_fixed = 534
index InstructionId.scvtf_32_double_fixed = 535
index InstructionId.ucvtf_32_double_fixed = 536
index InstructionId.fcvtzs_double_32_fixed = 537
index InstructionId.fcvtzu_double_32_fixed = 538
index InstructionId.scvtf_64_single_fixed = 539
index InstructionId.ucvtf_64_single_fixed = 540
index InstructionId.fcvtzs_single_64_fixed = 541
index InstructionId.fcvtzu_single_64_fixed = 542
index InstructionId.scvtf_64_double_fixed = 543
index InstructionId.ucvtf_64_double_fixed = 544
index InstructionId.fcvtzs_double_64_fixed = 545
index InstructionId.fcvtzu_double_64_fixed = 546
index InstructionId.fcvtns_single_32_int = 547
index InstructionId.fcvtnu_single_32_int = 548
index InstructionId.scvtf_32_single_int = 549
index InstructionId.ucvtf_32_single_int = 550
index InstructionId.fcvtas_single_32_int = 551
index InstructionId.fcvtau_single_32_int = 552
index InstructionId.fmov_single_32 = 553
index InstructionId.fmov_32_single = 554
index InstructionId.fcvtps_single_32_int = 555
index InstructionId.fcvtpu_single_32_int = 556
index InstructionId.fcvtms_single_32_int = 557
index InstructionId.fcvtmu_single_32_int = 558
index InstructionId.fcvtzs_single_32_int = 559
index InstructionId.fcvtzu_single_32_int = 560
index InstructionId.fcvtns_double_32_int = 561
index InstructionId.fcvtnu_double_32_int = 562
index InstructionId.scvtf_32_double_int = 563
index InstructionId.ucvtf_32_double_int = 564
index InstructionId.fcvtas_double_32_int = 565
index InstructionId.fcvtau_double_32_int = 566
index InstructionId.fcvtps_double_32_int = 567
index InstructionId.fcvtpu_double_32_int = 568
index InstructionId.fcvtms_double_32_int = 569
index InstructionId.fcvtmu_double_32_int = 570
index InstructionId.fcvtzs_double_32_int = 571
index InstructionId.fcvtzu_double_32_int = 572
index InstructionId.fcvtns_single_64_int = 573
index InstructionId.fcvtnu_single_64_int = 574
index InstructionId.scvtf_64_single_int = 575
index InstructionId.ucvtf_64_single_int = 576
index InstructionId.fcvtas_single_64_int = 577
index InstructionId.fcvtau_single_64_int = 578
index InstructionId.fcvtps_single_64_int = 579
index InstructionId.fcvtpu_single_64_int = 580
index InstructionId.fcvtms_single_64_int = 581
index InstructionId.fcvtmu_single_64_int = 582
index InstructionId.fcvtzs_single_64_int = 583
index InstructionId.fcvtzu_single_64_int = 584
index InstructionId.fcvtns_double_64_int = 585
index InstructionId.fcvtnu_double_64_int = 586
index InstructionId.scvtf_64_double_int = 587
index InstructionId.ucvtf_64_double_int = 588
index InstructionId.fcvtas_double_64_int = 589
index InstructionId.fcvtau_double_64_int = 590
index InstructionId.fmov_double_64 = 591
index InstructionId.fmov_64_double = 592
index InstructionId.fcvtps_double_64_int = 593
index InstructionId.fcvtpu_double_64_int = 594
index InstructionId.fcvtms_double_64_int = 595
index InstructionId.fcvtmu_double_64_int = 596
index InstructionId.fcvtzs_double_64_int = 597
index InstructionId.fcvtzu_double_64_int = 598
index InstructionId.fmov_top128_64 = 599
index InstructionId.fmov_64_top128 = 600
index InstructionId.fmov_reg_single = 601
index InstructionId.fabs_single = 602
index InstructionId.fneg_single = 603
index InstructionId.fsqrt_single = 604
index InstructionId.fcvt_single_double = 605
index InstructionId.fcvt_single_half = 606
index InstructionId.frintn_single = 607
index InstructionId.frintp_single = 608
index InstructionId.frintm_single = 609
index InstructionId.frintz_single = 610
index InstructionId.frinta_single = 611
index InstructionId.frintx_single = 612
index InstructionId.frinti_single = 613
index InstructionId.fmov_reg_double = 614
index InstructionId.fabs_double = 615
index InstructionId.fneg_double = 616
index InstructionId.fsqrt_double = 617
index InstructionId.fcvt_double_single = 618
index InstructionId.fcvt_double_half = 619
index InstructionId.frintn_double = 620
index InstructionId.frintp_double = 621
index InstructionId.frintm_double = 622
index InstructionId.frintz_double = 623
index InstructionId.frinta_double = 624
index InstructionId.frintx_double = 625
index InstructionId.frinti_double = 626
index InstructionId.fcvt_half_single = 627
index InstructionId.fcvt_half_double = 628
index InstructionId.fcmp_single = 629
index InstructionId.fcmp_single_zero = 630
index InstructionId.fcmpe_single = 631
index InstructionId.fcmpe_single_zero = 632
index InstructionId.fcmp_double = 633
index InstructionId.fcmp_double_zero = 634
index InstructionId.fcmpe_double = 635
index InstructionId.fcmpe_double_zero = 636
index InstructionId.fmov_imm_single = 637
index InstructionId.fmov_imm_double = 638
index InstructionId.fccmp_single = 639
index InstructionId.fccmpe_single = 640
index InstructionId.fccmp_double = 641
index InstructionId.fccmpe_double = 642
index InstructionId.fmul_single = 643
index InstructionId.fdiv_single = 644
index InstructionId.fadd_single = 645
index InstructionId.fsub_single = 646
index InstructionId.fmax_single = 647
index InstructionId.fmin_single = 648
index InstructionId.fmaxnm_single = 649
index InstructionId.fminnm_single = 650
index InstructionId.fnmul_single = 651
index InstructionId.fmul_double = 652
index InstructionId.fdiv_double = 653
index InstructionId.fadd_double = 654
index InstructionId.fsub_double = 655
index InstructionId.fmax_double = 656
index InstructionId.fmin_double = 657
index InstructionId.fmaxnm_double = 658
index InstructionId.fminnm_double = 659
index InstructionId.fnmul_double = 660
index InstructionId.fcsel_single = 661
index InstructionId.fcsel_double = 662
index InstructionId.fmadd_single = 663
index InstructionId.fmsub_single = 664
index InstructionId.fnmadd_single = 665
index InstructionId.fnmsub_single = 666
index InstructionId.fmadd_double = 667
index InstructionId.fmsub_double = 668
index InstructionId.fnmadd_double = 669
index InstructionId.fnmsub_double = 670
index InstructionId.aese = 671
index InstructionId.aesd = 672
index InstructionId.aesmc = 673
index InstructionId.aesimc = 674
index InstructionId.sha1c = 675
index InstructionId.sha1p = 676
index InstructionId.sha1m = 677
index InstructionId.sha1su0 = 678
index InstructionId.sha256h = 679
index InstructionId.sha256h2 = 680
index InstructionId.sha256su1 = 681
index InstructionId.sha1h = 682
index InstructionId.sha1su1 = 683
index InstructionId.sha256su0 = 684
index InstructionId.dup_element_scalar = 685
index InstructionId.suqadd_scalar = 686
index InstructionId.sqabs_scalar = 687
index InstructionId.cmgt_scalar_zero = 688
index InstructionId.cmeq_scalar_zero = 689
index InstructionId.cmlt_scalar_zero = 690
index InstructionId.abs_scalar = 691
index InstructionId.sqxtn_scalar = 692
index InstructionId.fcvtns_scalar = 693
index InstructionId.fcvtms_scalar = 694
index InstructionId.fcvtas_scalar = 695
index InstructionId.scvtf_scalar_int = 696
index InstructionId.fcmgt_scalar_zero = 697
index InstructionId.fcmeq_scalar_zero = 698
index InstructionId.fcmlt_scalar_zero = 699
index InstructionId.fcvtps_scalar = 700
index InstructionId.fcvtzs_scalar_int = 701
index InstructionId.frecpe_scalar = 702
index InstructionId.frecpx_scalar = 703
index InstructionId.usqadd_scalar = 704
index InstructionId.sqneg_scalar = 705
index InstructionId.cmge_scalar_zero = 706
index InstructionId.cmle_scalar_zero = 707
index InstructionId.neg_scalar = 708
index InstructionId.sqxtun_scalar = 709
index InstructionId.uqxtn_scalar = 710
index InstructionId.fcvtxn_scalar = 711
index InstructionId.fcvtnu_scalar = 712
index InstructionId.fcvtmu_scalar = 713
index InstructionId.fcvtau_scalar = 714
index InstructionId.ucvtf_scalar_int = 715
index InstructionId.fcmge_scalar_zero = 716
index InstructionId.fcmle_scalar_zero = 717
index InstructionId.fcvtpu_scalar = 718
index InstructionId.fcvtzu_scalar_int = 719
index InstructionId.frsqrte_scalar = 720
index InstructionId.addp_scalar = 721
index InstructionId.fmaxnmp_scalar = 722
index InstructionId.faddp_scalar = 723
index InstructionId.fmaxp_scalar = 724
index InstructionId.fminnmp_scalar = 725
index InstructionId.fminp_scalar = 726
index InstructionId.sqdmlal_scalar = 727
index InstructionId.sqdmlsl_scalar = 728
index InstructionId.sqdmull_scalar = 729
index InstructionId.sqadd_scalar = 730
index InstructionId.sqsub_scalar = 731
index InstructionId.cmgt_scalar_reg = 732
index InstructionId.cmge_scalar_reg = 733
index InstructionId.sshl_scalar = 734
index InstructionId.sqshl_scalar_reg = 735
index InstructionId.srshl_scalar = 736
index InstructionId.sqrshl_scalar = 737
index InstructionId.add_scalar = 738
index InstructionId.cmtst_scalar = 739
index InstructionId.sqdmulh_scalar = 740
index InstructionId.fmulx_scalar = 741
index InstructionId.fcmeq_scalar_reg = 742
index InstructionId.frecps_scalar = 743
index InstructionId.frsqrts_scalar = 744
index InstructionId.uqadd_scalar = 745
index InstructionId.uqsub_scalar = 746
index InstructionId.cmhi_scalar_reg = 747
index InstructionId.cmhs_scalar_reg = 748
index InstructionId.ushl_scalar = 749
index InstructionId.uqshl_scalar_reg = 750
index InstructionId.urshl_scalar = 751
index InstructionId.uqrshl_scalar = 752
index InstructionId.sub_scalar = 753
index InstructionId.cmeq_scalar_reg = 754
index InstructionId.sqrdmulh_scalar = 755
index InstructionId.fcmge_scalar_reg = 756
index InstructionId.facge_scalar = 757
index InstructionId.fabd_scalar = 758
index InstructionId.fcmgt_scalar_reg = 759
index InstructionId.facgt_scalar = 760
index InstructionId.sshr_scalar = 761
index InstructionId.ssra_scalar = 762
index InstructionId.srshr_scalar = 763
index InstructionId.srsra_scalar = 764
index InstructionId.shl_scalar = 765
index InstructionId.sqshl_scalar_imm = 766
index InstructionId.sqshrn_scalar = 767
index InstructionId.sqrshrn_scalar = 768
index InstructionId.scvtf_scalar_fixed = 769
index InstructionId.fcvtzs_scalar_fixed = 770
index InstructionId.ushr_scalar = 771
index InstructionId.usra_scalar = 772
index InstructionId.urshr_scalar = 773
index InstructionId.ursra_scalar = 774
index InstructionId.sri_scalar = 775
index InstructionId.sli_scalar = 776
index InstructionId.sqshlu_scalar = 777
index InstructionId.uqshl_scalar_imm = 778
index InstructionId.sqshrun_scalar = 779
index InstructionId.sqrshrun_scalar = 780
index InstructionId.uqshrn_scalar = 781
index InstructionId.uqrshrn_scalar = 782
index InstructionId.ucvtf_scalar_fixed = 783
index InstructionId.fcvtzu_scalar_fixed = 784
index InstructionId.sqdmlal_scalar_element = 785
index InstructionId.sqdmlsl_scalar_element = 786
index InstructionId.sqdmull_scalar_element = 787
index InstructionId.sqdmulh_scalar_element = 788
index InstructionId.sqrdmulh_scalar_element = 789
index InstructionId.fmla_scalar_element = 790
index InstructionId.fmls_scalar_element = 791
index InstructionId.fmul_scalar_element = 792
index InstructionId.fmulx_scalar_element = 793
index InstructionId.tbl_one_reg = 794
index InstructionId.tbx_one_reg = 795
index InstructionId.tbl_two_reg = 796
index InstructionId.tbx_two_reg = 797
index InstructionId.tbl_three_reg = 798
index InstructionId.tbx_three_reg = 799
index InstructionId.tbl_four_reg = 800
index InstructionId.tbx_four_reg = 801
index InstructionId.uzp1 = 802
index InstructionId.trn1 = 803
index InstructionId.zip1 = 804
index InstructionId.uzp2 = 805
index InstructionId.trn2 = 806
index InstructionId.zip2 = 807
index InstructionId.ext = 808
index InstructionId.dup_element_vec = 809
index InstructionId.dup_general = 810
index InstructionId.smov_32 = 811
index InstructionId.umov_32 = 812
index InstructionId.ins_general = 813
index InstructionId.smov_64 = 814
index InstructionId.umov_64 = 815
index InstructionId.ins_element = 816
index InstructionId.rev64_vec = 817
index InstructionId.rev16_vec = 818
index InstructionId.saddlp_vec = 819
index InstructionId.suqadd_vec = 820
index InstructionId.cls_vec = 821
index InstructionId.cnt_vec = 822
index InstructionId.sadalp_vec = 823
index InstructionId.sqabs_vec = 824
index InstructionId.cmgt_vec_zero = 825
index InstructionId.cmeq_vec_zero = 826
index InstructionId.cmlt_vec_zero = 827
index InstructionId.abs_vec = 828
index InstructionId.xtn_vec = 829
index InstructionId.xtn2_vec = 830
index InstructionId.sqxtn_vec = 831
index InstructionId.sqxtn2_vec = 832
index InstructionId.fcvtn_vec = 833
index InstructionId.fcvtn2_vec = 834
index InstructionId.fcvtl_vec = 835
index InstructionId.fcvtl2_vec = 836
index InstructionId.frintn_vec = 837
index InstructionId.frintm_vec = 838
index InstructionId.fcvtns_vec = 839
index InstructionId.fcvtms_vec = 840
index InstructionId.fcvtas_vec = 841
index InstructionId.scvtf_vec_int = 842
index InstructionId.fcmgt_vec_zero = 843
index InstructionId.fcmeq_vec_zero = 844
index InstructionId.fcmlt_vec_zero = 845
index InstructionId.fabs_vec = 846
index InstructionId.frintp_vec = 847
index InstructionId.frintz_vec = 848
index InstructionId.fcvtps_vec = 849
index InstructionId.fcvtzs_vec_int = 850
index InstructionId.urecpe_vec = 851
index InstructionId.frecpe_vec = 852
index InstructionId.rev32_vec = 853
index InstructionId.uaddlp_vec = 854
index InstructionId.usqadd_vec = 855
index InstructionId.clz_vec = 856
index InstructionId.uadalp_vec = 857
index InstructionId.sqneg_vec = 858
index InstructionId.cmge_vec_zero = 859
index InstructionId.cmle_vec_zero = 860
index InstructionId.neg_vec = 861
index InstructionId.sqxtun_vec = 862
index InstructionId.sqxtun2_vec = 863
index InstructionId.shll_vec = 864
index InstructionId.shll2_vec = 865
index InstructionId.uqxtn_vec = 866
index InstructionId.uqxtn2_vec = 867
index InstructionId.fcvtxn_vec = 868
index InstructionId.fcvtxn2_vec = 869
index InstructionId.frinta_vec = 870
index InstructionId.frintx_vec = 871
index InstructionId.fcvtnu_vec = 872
index InstructionId.fcvtmu_vec = 873
index InstructionId.fcvtau_vec = 874
index InstructionId.ucvtf_vec_int = 875
index InstructionId.not_vec = 876
index InstructionId.rbit_vec = 877
index InstructionId.fcmge_vec_zero = 878
index InstructionId.fcmle_vec_zero = 879
index InstructionId.fneg_vec = 880
index InstructionId.frinti_vec = 881
index InstructionId.fcvtpu_vec = 882
index InstructionId.fcvtzu_vec_int = 883
index InstructionId.ursqrte_vec = 884
index InstructionId.frsqrte_vec = 885
index InstructionId.fsqrt_vec = 886
index InstructionId.saddlv_vec = 887
index InstructionId.smaxv_vec = 888
index InstructionId.sminv_vec = 889
index InstructionId.addv_vec = 890
index InstructionId.uaddlv_vec = 891
index InstructionId.umaxv_vec = 892
index InstructionId.uminv_vec = 893
index InstructionId.fmaxnmv_vec = 894
index InstructionId.fmaxv_vec = 895
index InstructionId.fminnmv_vec = 896
index InstructionId.fminv_vec = 897
index InstructionId.saddl = 898
index InstructionId.saddl2 = 899
index InstructionId.saddw = 900
index InstructionId.saddw2 = 901
index InstructionId.ssubl = 902
index InstructionId.ssubl2 = 903
index InstructionId.ssubw = 904
index InstructionId.ssubw2 = 905
index InstructionId.addhn = 906
index InstructionId.addhn2 = 907
index InstructionId.sabal = 908
index InstructionId.sabal2 = 909
index InstructionId.subhn = 910
index InstructionId.subhn2 = 911
index InstructionId.sabdl = 912
index InstructionId.sabdl2 = 913
index InstructionId.smlal_vec = 914
index InstructionId.smlal2_vec = 915
index InstructionId.sqdmlal_vec = 916
index InstructionId.sqdmlal2_vec = 917
index InstructionId.smlsl_vec = 918
index InstructionId.smlsl2_vec = 919
index InstructionId.sqdmlsl_vec = 920
index InstructionId.sqdmlsl2_vec = 921
index InstructionId.smull_vec = 922
index InstructionId.smull2_vec = 923
index InstructionId.sqdmull_vec = 924
index InstructionId.sqdmull2_vec = 925
index InstructionId.pmull = 926
index InstructionId.pmull2 = 927
index InstructionId.uaddl = 928
index InstructionId.uaddl2 = 929
index InstructionId.uaddw = 930
index InstructionId.uaddw2 = 931
index InstructionId.usubl = 932
index InstructionId.usubl2 = 933
index InstructionId.usubw = 934
index InstructionId.usubw2 = 935
index InstructionId.raddhn = 936
index InstructionId.raddhn2 = 937
index InstructionId.uabal = 938
index InstructionId.uabal2 = 939
index InstructionId.rsubhn = 940
index InstructionId.rsubhn2 = 941
index InstructionId.uabdl = 942
index InstructionId.uabdl2 = 943
index InstructionId.umlal_vec = 944
index InstructionId.umlal2_vec = 945
index InstructionId.umlsl_vec = 946
index InstructionId.umlsl2_vec = 947
index InstructionId.umull_vec = 948
index InstructionId.umull2_vec = 949
index InstructionId.shadd_vec = 950
index InstructionId.sqadd_vec = 951
index InstructionId.srhadd_vec = 952
index InstructionId.shsub_vec = 953
index InstructionId.sqsub_vec = 954
index InstructionId.cmgt_vec_reg = 955
index InstructionId.cmge_vec_reg = 956
index InstructionId.sshl_vec = 957
index InstructionId.sqshl_vec_reg = 958
index InstructionId.srshl_vec = 959
index InstructionId.sqrshl_vec = 960
index InstructionId.smax_vec = 961
index InstructionId.smin_vec = 962
index InstructionId.sabd_vec = 963
index InstructionId.saba_vec = 964
index InstructionId.add_vec = 965
index InstructionId.cmtst_vec = 966
index InstructionId.mla_vec = 967
index InstructionId.mul_vec = 968
index InstructionId.smaxp_vec = 969
index InstructionId.sminp_vec = 970
index InstructionId.sqdmulh_vec = 971
index InstructionId.addp_vec = 972
index InstructionId.fmaxnm_vec = 973
index InstructionId.fmla_vec = 974
index InstructionId.fadd_vec = 975
index InstructionId.fmulx_vec = 976
index InstructionId.fcmeq_vec_reg = 977
index InstructionId.fmax_vec = 978
index InstructionId.frecps_vec = 979
index InstructionId.and_vec = 980
index InstructionId.bic_vec_reg = 981
index InstructionId.fminnm_vec = 982
index InstructionId.fmls_vec = 983
index InstructionId.fsub_vec = 984
index InstructionId.fmin_vec = 985
index InstructionId.frsqrts_vec = 986
index InstructionId.orr_vec_reg = 987
index InstructionId.orn_vec = 988
index InstructionId.uhadd_vec = 989
index InstructionId.uqadd_vec = 990
index InstructionId.urhadd_vec = 991
index InstructionId.uhsub_vec = 992
index InstructionId.uqsub_vec = 993
index InstructionId.cmhi_vec_reg = 994
index InstructionId.cmhs_vec_reg = 995
index InstructionId.ushl_vec = 996
index InstructionId.uqshl_vec_reg = 997
index InstructionId.urshl_vec = 998
index InstructionId.uqrshl_vec = 999
index InstructionId.umax_vec = 1000
index InstructionId.umin_vec = 1001
index InstructionId.uabd_vec = 1002
index InstructionId.uaba_vec = 1003
index InstructionId.sub_vec = 1004
index InstructionId.cmeq_vec_reg = 1005
index InstructionId.mls_vec = 1006
index InstructionId.pmul_vec = 1007
index InstructionId.umaxp_vec = 1008
index InstructionId.uminp_vec = 1009
index InstructionId.sqrdmulh_vec = 1010
index InstructionId.fmaxnmp_vec = 1011
index InstructionId.faddp_vec = 1012
index InstructionId.fmul_vec = 1013
index InstructionId.fcmge_vec_reg = 1014
index InstructionId.facge_vec = 1015
index InstructionId.fmaxp_vec = 1016
index InstructionId.fdiv_vec = 1017
index InstructionId.eor_vec = 1018
index InstructionId.bsl_vec = 1019
index InstructionId.fminnmp_vec = 1020
index InstructionId.fabd_vec = 1021
index InstructionId.fcmgt_vec_reg = 1022
index InstructionId.facgt_vec = 1023
index InstructionId.fminp_vec = 1024
index InstructionId.bit_vec = 1025
index InstructionId.bif_vec = 1026
index InstructionId.movi_32_shifted_imm = 1027
index InstructionId.orr_vec_imm_32 = 1028
index InstructionId.movi_16_shifted_imm = 1029
index InstructionId.orr_vec_imm_16 = 1030
index InstructionId.movi_32_shifting_ones = 1031
index InstructionId.movi_8_imm = 1032
index InstructionId.fmov_vec_imm_single = 1033
index InstructionId.mvni_32_shifted_imm = 1034
index InstructionId.bic_vec_imm_32 = 1035
index InstructionId.mvni_16_shifted_imm = 1036
index InstructionId.bic_vec_imm_16 = 1037
index InstructionId.mvni_32_shifting_ones = 1038
index InstructionId.movi_64_scalar = 1039
index InstructionId.movi_64_vec = 1040
index InstructionId.fmov_vec_imm_double = 1041
index InstructionId.sshr_vec = 1042
index InstructionId.ssra_vec = 1043
index InstructionId.srshr_vec = 1044
index InstructionId.srsra_vec = 1045
index InstructionId.shl_vec = 1046
index InstructionId.sqshl_vec_imm = 1047
index InstructionId.shrn_vec = 1048
index InstructionId.shrn2_vec = 1049
index InstructionId.rshrn_vec = 1050
index InstructionId.rshrn2_vec = 1051
index InstructionId.sqshrn_vec = 1052
index InstructionId.sqshrn2_vec = 1053
index InstructionId.sqrshrn_vec = 1054
index InstructionId.sqrshrn2_vec = 1055
index InstructionId.sshll_vec = 1056
index InstructionId.sshll2_vec = 1057
index InstructionId.scvtf_vec_fixed = 1058
index InstructionId.fcvtzs_vec_fixed = 1059
index InstructionId.ushr_vec = 1060
index InstructionId.usra_vec = 1061
index InstructionId.urshr_vec = 1062
index InstructionId.ursra_vec = 1063
index InstructionId.sri_vec = 1064
index InstructionId.sli_vec = 1065
index InstructionId.sqshlu_vec = 1066
index InstructionId.uqshl_vec_imm = 1067
index InstructionId.sqshrun_vec = 1068
index InstructionId.sqshrun2_vec = 1069
index InstructionId.sqrshrun_vec = 1070
index InstructionId.sqrshrun2_vec = 1071
index InstructionId.uqshrn_vec = 1072
index InstructionId.uqshrn2_vec = 1073
index InstructionId.uqrshrn_vec = 1074
index InstructionId.uqrshrn2_vec = 1075
index InstructionId.ushll_vec = 1076
index InstructionId.ushll2_vec = 1077
index InstructionId.ucvtf_vec_fixed = 1078
index InstructionId.fcvtzu_vec_fixed = 1079
index InstructionId.smlal_vec_element = 1080
index InstructionId.smlal2_vec_element = 1081
index InstructionId.sqdmlal_vec_element = 1082
index InstructionId.sqdmlal2_vec_element = 1083
index InstructionId.smlsl_vec_element = 1084
index InstructionId.smlsl2_vec_element = 1085
index InstructionId.sqdmlsl_vec_element = 1086
index InstructionId.sqdmlsl2_vec_element = 1087
index InstructionId.mul_vec_element = 1088
index InstructionId.smull_vec_element = 1089
index InstructionId.smull2_vec_element = 1090
index InstructionId.sqdmull_vec_element = 1091
index InstructionId.sqdmull2_vec_element = 1092
index InstructionId.sqdmulh_vec_element = 1093
index InstructionId.sqrdmulh_vec_element = 1094
index InstructionId.fmla_vec_element = 1095
index InstructionId.fmls_vec_element = 1096
index InstructionId.fmul_vec_element = 1097
index InstructionId.mla_vec_element = 1098
index InstructionId.umlal_vec_element = 1099
index InstructionId.umlal2_vec_element = 1100
index InstructionId.mls_vec_element = 1101
index InstructionId.umlsl_vec_element = 1102
index InstructionId.umlsl2_vec_element = 1103
index InstructionId.umull_vec_element = 1104
index InstructionId.umull2_vec_element = 1105
index InstructionId.fmulx_vec_element = 1106
